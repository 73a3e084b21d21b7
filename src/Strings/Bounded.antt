-- ===== src/Strings/Bounded.antt =====
-- The copies with a bound: `strncpy`, which writes one element past it when the text is shorter, and
-- `wcslcpy`.
use rayos.Base.{
  ℕ, zero, suc, ◌+◌, ◌-◌, ◌≤◌, ◌<◌, ◌≡◌, ◌⊎◌, refl, arith, true, false, leb, ◌==◌, some,
  if◌then◌else◌, inl, inr, Bool-cases, ◌∙◌, update, ap, sym, min,
}
use rayos.Strings.{Memory, count_rest, fill_zero, strncpy, copy_bounded, wcslcpy}
use rayos.Strings.Copy.{inside, moved, moved_step}
use rayos.Strings.Text.{IsText, tail-IsText, ended-IsText, more-IsText, update-IsText, skip_lem}

fill_zero_lem :
    (n : ℕ) (mem : Memory) (dest k : ℕ)
    → fill_zero mem dest n k ≡ (if inside dest n k then 0 else mem k)
unfolding fill_zero
fill_zero_lem zero mem dest k = ground arith
fill_zero_lem (suc n) mem dest k =
    rw (fill_zero_lem n (update mem dest 0) (dest + 1) k) (ground arith)

-- What `strncpy` leaves at k: the first n elements of the text; or the text and then zeros up to
-- the element behind the n that it was given.
abbrev pub bounded : Memory → ℕ → ℕ → ℕ → ℕ → ℕ → ℕ
bounded mem dest src len n k =
    if leb n len
    then moved mem dest src n k
    else (if inside (dest + len) (n + 1 - len) k then 0 else moved mem dest src len k)

-- The end of the text: its terminator is copied, and then come the zeros.
bounded_end :
    (n : ℕ) (mem : Memory) (dest src k : ℕ)
    → mem src ≡ 0
    → (if inside (dest + 1) (suc n) k then 0 else update mem dest (mem src) k)
      ≡ bounded mem dest src 0 (suc n) k
bounded_end n mem dest src k end = ground arith

-- One element, and then the rest.
bounded_step :
    (n len : ℕ) (mem : Memory) (dest src k : ℕ)
    → (dest < src) ⊎ (src + suc len < dest)
    → bounded (update mem dest (mem src)) (dest + 1) (src + 1) len n k
      ≡ bounded mem dest src (suc len) (suc n) k
bounded_step n len mem dest src k apart = elim (Bool-cases (leb n len)) [
  | inl short ↦
      let also : leb (suc n) (suc len) ≡ true = ground arith in
      rw (short, also) (moved_step n mem dest src k (ground arith))
  | inr long ↦
      let also : leb (suc n) (suc len) ≡ false = ground arith in
      let zeros : inside (dest + 1 + len) (n + 1 - len) k
          ≡ inside (dest + suc len) (suc n + 1 - suc len) k =
        ground arith in
      rw (long, also, zeros, moved_step len mem dest src k (ground arith)) refl
]

-- `strncpy` of a text of length `len`: with n ≤ len it copies n elements and no terminator; with a
-- larger n it copies the text and stores zeros behind it, up to and including dest[n], which is one
-- element more than n. The destination does not start within the text.
pub strncpy-bounded :
    (n len : ℕ) (mem : Memory) (dest src k : ℕ)
    → IsText mem src len
    → (dest < src) ⊎ (src + len < dest)
    → strncpy mem dest src n k ≡ bounded mem dest src len n k
unfolding strncpy
strncpy-bounded zero len mem dest src k t apart = ground arith
strncpy-bounded (suc n) zero mem dest src k t apart =
    rw (ended-IsText mem src t, fill_zero_lem (suc n) (update mem dest (mem src)) (dest + 1) k)
      (bounded_end n mem dest src k (ap mem (omega arith) ∙ t.end))
strncpy-bounded (suc n) (suc len) mem dest src k t apart =
    rw
      (
        more-IsText mem src len t,
        strncpy-bounded n len (update mem dest (mem src)) (dest + 1) (src + 1) k
            (update-IsText mem (src + 1) len dest (mem src) (ground arith)
              (tail-IsText mem src len t))
            (ground arith),
      )
      (bounded_step n len mem dest src k apart)

-- The memory after a copy of `count` elements with a terminator.
abbrev pub terminated : Memory → ℕ → ℕ → ℕ → ℕ → ℕ
terminated mem dst src count k = if k == dst + count then 0 else moved mem dst src count k

terminated_step :
    (count : ℕ) (mem : Memory) (dst src k : ℕ)
    → (dst ≤ src) ⊎ (src + suc count ≤ dst)
    → terminated (update mem dst (mem src)) (dst + 1) (src + 1) count k
      ≡ terminated mem dst src (suc count) k
terminated_step count mem dst src k apart =
    let last : (k == dst + 1 + count) ≡ (k == dst + suc count) = ground arith in
    rw (last, moved_step count mem dst src k apart) refl

copy_bounded_lem :
    (room len start : ℕ) (mem : Memory) (dst src : ℕ)
    → IsText mem src len
    → (dst + room < src) ⊎ (src + len < dst)
    → ((copy_bounded mem dst src room start).1 ≡ start + min room len)
      × ((k : ℕ)
          → (copy_bounded mem dst src room start).0 k ≡ terminated mem dst src (min room len) k)
unfolding copy_bounded
copy_bounded_lem zero len start mem dst src t apart = (omega arith, λ k. ground arith)
copy_bounded_lem (suc room) zero start mem dst src t apart =
    rw (ended-IsText mem src t) (omega arith, λ k. ground arith)
copy_bounded_lem (suc room) (suc len) start mem dst src t apart =
    let (count, copied) =
      copy_bounded_lem room len (start + 1) (update mem dst (mem src)) (dst + 1) (src + 1)
        (update-IsText mem (src + 1) len dst (mem src) (ground arith) (tail-IsText mem src len t))
        (ground arith) in
    let least : min (suc room) (suc len) ≡ suc (min room len) = omega arith in
    rw (more-IsText mem src len t, least)
      (
        omega (arith, count),
        λ k. copied k ∙ terminated_step (min room len) mem dst src k (ground arith),
      )

-- The second loop of `wcslcpy` counts the elements that were not copied.
counted :
    (fuel len count : ℕ) (mem new : Memory) (src : ℕ)
    → len < fuel
    → count ≤ len
    → IsText mem src len
    → ((j : ℕ) → src ≤ j → j ≤ src + len → new j ≡ mem j)
    → count_rest fuel src (new, count) ≡ some (new, len)
unfolding count_rest
counted fuel len count mem new src h hc t same =
    let end : src + count + (len - count) ≡ src + len = omega arith in
    let rest : IsText new (src + count) (len - count) = record {
      end = ap new end ∙ same (src + len) (omega arith) (omega arith) ∙ t.end;
      full = λ j lo hi e.
          t.full j (omega arith) (omega arith) (sym (same j (omega arith) (omega arith)) ∙ e);
    } in
    let total : count + (src + count + (len - count) - (src + count)) ≡ len = omega arith in
    rw (skip_lem fuel (len - count) new (src + count) (omega arith) rest, count_rest)
      (ap (λ r. some (new, r)) total)

-- `wcslcpy` of a text ends, given more fuel than the length, and returns the length. With a size of 0
-- it writes nothing; else it copies at most size - 1 elements and stores a terminator behind them,
-- and nothing else. The destination does not overlap the text.
pub wcslcpy-terminated :
    (fuel len : ℕ) (mem : Memory) (dst src size : ℕ)
    → len < fuel
    → IsText mem src len
    → (dst + size ≤ src) ⊎ (src + len < dst)
    → (new : Memory) × (wcslcpy fuel mem dst src size ≡ some (new, len))
      × ((k : ℕ)
          → new k ≡ (if size == 0 then mem k else terminated mem dst src (min (size - 1) len) k))
unfolding wcslcpy
wcslcpy-terminated fuel len mem dst src size h t apart = elim (Bool-cases (size == 0)) [
  | inl empty ↦ (
    mem,
    rw (empty, wcslcpy) (counted fuel len 0 mem mem src h (omega arith) t (λ j lo hi. refl)),
    λ k. rw empty refl,
  )
  | inr some_room ↦
      let (count, copied) = copy_bounded_lem (size - 1) len 0 mem dst src t (ground arith) in
      let new : Memory = (copy_bounded mem dst src (size - 1) 0).0 in
      (
        new,
        rw (some_room, wcslcpy)
            (counted fuel len (copy_bounded mem dst src (size - 1) 0).1 mem new src h
              (omega (arith, count)) t (λ j lo hi. copied j ∙ ground arith)),
        λ k. rw some_room (copied k),
      )
]
