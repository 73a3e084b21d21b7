-- ===== src/Fat32/Names.antt =====
-- A name that needs no long entry is read back from its short one; and the steps along a path.
use rayos.Base.{
  ℕ, zero, suc, ◌+◌, ◌≤◌, ◌<◌, ◌≡◌, ◌≢◌, ◌⊎◌, refl, arith, true, false, ◌&&◌, ◌||◌, none, some,
  ◌==◌, ltb, leb, if◌then◌else◌, List, [], ◌∷◌, ◌++◌, length, update, update_self, update_ne, inl,
  inr, Bool-cases, ◌∙◌, ap, sym, pos,
}
use rayos.Tmpfs.{component, after}
use rayos.Tmpfs.Path.{names, round-cases}
use rayos.Fat32.{
  space, dot, has_char, before_last, after_last, base_of, ext_of, sfn_part, sfn_to_ascii, toupper,
  put, blank, ascii_to_sfn, path_next, next_name, is_sfn_char, needs_loop, need_lfn,
}

put-before : (f : ℕ → ℕ) (i : ℕ) (cs : List ℕ) (g : ℕ → ℕ) (x : ℕ) → x < i → put f i cs g x ≡ g x
unfolding put
put-before f i [] g x h = refl
put-before f i (c ∷ cs) g x h =
    put-before f (i + 1) cs (update g i (f c)) x (omega arith)
    ∙ update_ne g i x (f c) (λ e. absurd (omega arith))

put-behind :
    (f : ℕ → ℕ) (i : ℕ) (cs : List ℕ) (g : ℕ → ℕ) (x : ℕ) → i + length cs ≤ x → put f i cs g x ≡ g x
unfolding put
put-behind f i [] g x h = refl
put-behind f i (c ∷ cs) g x h =
    put-behind f (i + 1) cs (update g i (f c)) x (omega arith)
    ∙ update_ne g i x (f c) (λ e. absurd (omega arith))

-- The n bytes of g from i on are cs, which has no space, and then a space, unless cs fills them.
abbrev Spells : ℕ → ℕ → (ℕ → ℕ) → List ℕ → Type 0
Spells zero i g [] = Unit
Spells zero i g (c ∷ cs) = 1 ≤ 0
Spells (suc n) i g [] = g i ≡ space
Spells (suc n) i g (c ∷ cs) = (g i ≡ c) × (c ≢ space) × Spells n (i + 1) g cs

sfn_part-Spells : (n i : ℕ) (g : ℕ → ℕ) (cs : List ℕ) → Spells n i g cs → sfn_part n i g ≡ cs
unfolding sfn_part
sfn_part-Spells zero i g [] s = refl
sfn_part-Spells zero i g (c ∷ cs) s = absurd (omega (arith, s))
sfn_part-Spells (suc n) i g [] s =
    let end : (g i == space) ≡ true = ground (arith, s) in rw end refl
sfn_part-Spells (suc n) i g (c ∷ cs) (here, plain, rest) =
    let more : (g i == space) ≡ false = ground arith in
    rw more (
      ap (λ x. x ∷ sfn_part n (i + 1) g) here
      ∙ ap (λ r. c ∷ r) (sfn_part-Spells n (i + 1) g cs rest))

-- Characters that stay as they are in upper case, and no space among them.
abbrev Plain : List ℕ → Type 0
Plain [] = Unit
Plain (c ∷ cs) = (toupper c ≡ c) × (c ≢ space) × Plain cs

-- Characters in a blank short name, seen through any g that agrees with it there.
put-Spells :
    (n i : ℕ) (cs : List ℕ) (f g : ℕ → ℕ)
    → Plain cs
    → length cs ≤ n
    → ((x : ℕ) → i ≤ x → x < i + n → f x ≡ space)
    → ((x : ℕ) → i ≤ x → x < i + n → g x ≡ put toupper i cs f x)
    → Spells n i g cs
unfolding put
put-Spells zero i [] f g plain h blank' same = tt
put-Spells zero i (c ∷ cs) f g plain h blank' same = absurd (omega arith)
put-Spells (suc n) i [] f g plain h blank' same =
    same i (omega arith) (omega arith) ∙ blank' i (omega arith) (omega arith)
put-Spells (suc n) i (c ∷ cs) f g (upper, solid, plain) h blank' same = (
  same i (omega arith) (omega arith)
      ∙ put-before toupper (i + 1) cs (update f i (toupper c)) i (omega arith)
      ∙ update_self f i (toupper c)
      ∙ upper,
  solid,
  put-Spells n (i + 1) cs (update f i (toupper c)) g plain (omega arith)
      (λ x lo hi.
        update_ne f i x (toupper c) (λ e. absurd (omega arith))
        ∙ blank' x (omega arith) (omega arith))
      (λ x lo hi. same x (omega arith) (omega arith)),
)

-- The base and the extension, of at most 8 and 3 plain characters, are read back.
short-part :
    (base ext : List ℕ)
    → Plain base
    → Plain ext
    → length base ≤ 8
    → length ext ≤ 3
    → let sfn : ℕ → ℕ = put toupper 8 ext (put toupper 0 base blank) in
      (sfn_part 8 0 sfn ≡ base) × Spells 3 8 sfn ext
short-part base ext b e hb he =
    let low : ℕ → ℕ = put toupper 0 base blank in
    let sfn : ℕ → ℕ = put toupper 8 ext low in
    (
      sfn_part-Spells 8 0 sfn base (
          put-Spells 8 0 base blank sfn b hb (λ x lo hi. refl)
            (λ x lo hi. put-before toupper 8 ext low x (omega arith))),
      put-Spells 3 8 ext low sfn e he (λ x lo hi. put-behind toupper 0 base blank x (omega arith))
          (λ x lo hi. refl),
    )

-- One character that the loop lets pass.
plain_char :
    (c : ℕ)
    → (c == dot) ≡ false
    → (leb 97 c && leb c 122) ≡ false
    → is_sfn_char c ≡ true
    → (toupper c ≡ c) × (c ≢ space)
unfolding toupper is_sfn_char
plain_char c other low good = (
  rw low refl,
  λ e. elim (Bool-cases (c == space)) [
    | inl here ↦ let it : c ≡ 32 = ground arith in cc (rw it at good)
    | inr apart ↦ ground arith
  ],
)

dot_upper : toupper dot ≡ dot
unfolding toupper
dot_upper = refl

needs_loop-Plain : (cs : List ℕ) → needs_loop cs ≡ false → Plain cs
unfolding needs_loop
needs_loop-Plain [] h = tt
needs_loop-Plain (c ∷ cs) h = elim (Bool-cases (c == dot)) [
  | inl here ↦
      let it : c ≡ dot = ground arith in
      let upper : toupper c ≡ c = rw it dot_upper in
      (upper, (λ e. ground (arith, it, e)), needs_loop-Plain cs (rw here at h))
  | inr other ↦ elim (Bool-cases (leb 97 c && leb c 122)) [
    | inl low ↦ cc (rw (other, low) at h)
    | inr high ↦ elim (Bool-cases (ltb 0x7f c)) [
      | inl wide ↦ cc (rw (other, high, wide) at h)
      | inr ascii ↦ elim (Bool-cases (is_sfn_char c)) [
        | inr bad ↦ cc (rw (other, high, ascii, bad) at h)
        | inl good ↦
            let (upper, solid) = plain_char c other high good in
            (upper, solid, needs_loop-Plain cs (rw (other, high, ascii, good) at h))
      ]
    ]
  ]
]

before_last-Plain : (c : ℕ) (cs : List ℕ) → Plain cs → Plain (before_last c cs)
unfolding before_last
before_last-Plain c [] p = tt
before_last-Plain c (x ∷ xs) (upper, solid, p) = elim (Bool-cases (has_char c xs)) [
  | inl more ↦ rw more (upper, solid, before_last-Plain c xs p)
  | inr last ↦ rw last tt
]

after_last-Plain : (c : ℕ) (cs : List ℕ) → Plain cs → Plain (after_last c cs)
unfolding after_last
after_last-Plain c [] p = tt
after_last-Plain c (x ∷ xs) (upper, solid, p) = elim (Bool-cases (has_char c xs)) [
  | inl more ↦ rw more (after_last-Plain c xs p)
  | inr last ↦ rw last p
]

-- A text with a c is the part before the last c, that c, and the part behind it.
pub before-after :
    (c : ℕ) (cs : List ℕ) → has_char c cs ≡ true → before_last c cs ++ (c ∷ after_last c cs) ≡ cs
unfolding before_last after_last has_char
before-after c [] h = cc h
before-after c (x ∷ xs) h = elim (Bool-cases (has_char c xs)) [
  | inl more ↦ rw more (ap (λ r. x ∷ r) (before-after c xs more))
  | inr last ↦ let it : x ≡ c = ground arith in rw last (ap (λ y. y ∷ xs) (sym it))
]

append_nil : (xs : List ℕ) → xs ++ [] ≡ xs
append_nil [] = refl
append_nil (x ∷ xs) = ap (λ r. x ∷ r) (append_nil xs)

need_lfn-sizes :
    (name : List ℕ)
    → need_lfn name ≡ false
    → (length (base_of name) ≤ 8) × (length (ext_of name) ≤ 3) × (needs_loop name ≡ false)
unfolding need_lfn
need_lfn-sizes [] h = cc h
need_lfn-sizes (c ∷ cs) h =
    elim (Bool-cases (has_char dot (c ∷ cs) && (length (base_of (c ∷ cs)) == 0))) [
      | inl bare ↦ cc (rw bare at h)
      | inr named ↦ elim (Bool-cases (ltb 8 (length (base_of (c ∷ cs))))) [
        | inl wide ↦ cc (rw (named, wide) at h)
        | inr base ↦ elim (Bool-cases (ltb 3 (length (ext_of (c ∷ cs))))) [
          | inl wide ↦ cc (rw (named, base, wide) at h)
          | inr ext ↦ (ground arith, ground arith, rw (named, base, ext) at h)
        ]
      ]
    ]

-- The parts of a short name, as they are read back.
abbrev dotted : List ℕ → List ℕ
dotted [] = []
dotted (c ∷ cs) = dot ∷ c ∷ cs

tail_Spells :
    (sfn : ℕ → ℕ) (ext : List ℕ)
    → Spells 3 8 sfn ext
    → (if sfn 8 == space then [] else dot ∷ sfn_part 3 8 sfn) ≡ dotted ext
tail_Spells sfn [] s = let blank' : (sfn 8 == space) ≡ true = ground (arith, s) in rw blank' refl
tail_Spells sfn (c ∷ cs) (here, solid, rest) =
    let more : (sfn 8 == space) ≡ false = ground arith in
    rw more (ap (λ r. dot ∷ r) (sfn_part-Spells 3 8 sfn (c ∷ cs) (here, solid, rest)))

sfn_to_ascii-put :
    (base ext : List ℕ)
    → Plain base
    → Plain ext
    → length base ≤ 8
    → length ext ≤ 3
    → sfn_to_ascii (put toupper 8 ext (put toupper 0 base blank)) ≡ base ++ dotted ext
unfolding sfn_to_ascii
sfn_to_ascii-put base ext b e hb he =
    let (front, back) = short-part base ext b e hb he in
    rw front
      (ap (λ r. base ++ r) (tail_Spells (put toupper 8 ext (put toupper 0 base blank)) ext back))

ascii_to_sfn-fits :
    (name : List ℕ)
    → length (base_of name) ≤ 8
    → length (ext_of name) ≤ 3
    → ascii_to_sfn name ≡ (pos 0, put toupper 8 (ext_of name) (put toupper 0 (base_of name) blank))
unfolding ascii_to_sfn
ascii_to_sfn-fits name hb he =
    let short : (ltb 8 (length (base_of name)) || ltb 3 (length (ext_of name))) ≡ false =
      ground arith in
    rw short refl

-- The two parts of a name, plain if the name is, and the name again.
parts-Plain : (name : List ℕ) → Plain name → Plain (base_of name) × Plain (ext_of name)
parts-Plain name p = elim (Bool-cases (has_char dot name)) [
  | inl split ↦ rw split (before_last-Plain dot name p, after_last-Plain dot name p)
  | inr whole ↦ rw whole (p, tt)
]

dotted-cons : (ext : List ℕ) → ext ≢ [] → dotted ext ≡ dot ∷ ext
dotted-cons [] h = absurd (h refl)
dotted-cons (c ∷ cs) h = refl

parts-joined :
    (name : List ℕ)
    → (has_char dot name ≡ true → ext_of name ≢ [])
    → base_of name ++ dotted (ext_of name) ≡ name
parts-joined name h = elim (Bool-cases (has_char dot name)) [
  | inl split ↦
      let some_ext : after_last dot name ≢ [] = rw split at (h split) in
      rw split (
        ap (λ r. before_last dot name ++ r) (dotted-cons (after_last dot name) some_ext)
        ∙ before-after dot name split)
  | inr whole ↦ rw whole (append_nil name)
]

-- If a name needs no long entry, and something stands behind its last dot if it has a dot, then
-- `ascii_to_sfn` returns 0 and the short name that it writes is read back as this name.
pub sfn_to_ascii-ascii_to_sfn :
    (name : List ℕ)
    → need_lfn name ≡ false
    → (has_char dot name ≡ true → ext_of name ≢ [])
    → ((ascii_to_sfn name).0 ≡ pos 0) × (sfn_to_ascii (ascii_to_sfn name).1 ≡ name)
sfn_to_ascii-ascii_to_sfn name h e =
    let (hb, he, loop) = need_lfn-sizes name h in
    let (b, x) = parts-Plain name (needs_loop-Plain name loop) in
    let made = ascii_to_sfn-fits name hb he in
    (
      ap (λ r. r.0) made,
      ap (λ r. sfn_to_ascii r.1) made
          ∙ sfn_to_ascii-put (base_of name) (ext_of name) b x hb he
          ∙ parts-joined name e,
    )

-- A step along a path takes the first of its names and leaves the others; NULL is the path's end.
path_next-names :
    (path : List ℕ)
    → ((path_next path ≡ none) × (names path ≡ []))
      ⊎ ((rest : List ℕ) × (w : List ℕ) × (path_next path ≡ some (rest, w))
          × (names path ≡ w ∷ names rest))
unfolding path_next
path_next-names path = elim (round-cases path) [
  | inl (none_left, empty) ↦ inl (ap next_name none_left, empty)
  | inr (d, q, e, split, shorter) ↦ inr (after (d ∷ q), component (d ∷ q), ap next_name e, split)
]
