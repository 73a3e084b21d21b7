-- ===== src/Strings/Text.antt =====
-- The functions that run to a terminator: `strlen`, `strcpy`, `wcscat`.
use rayos.Base.{
  ℕ, zero, suc, ◌+◌, ◌≤◌, ◌<◌, ◌≡◌, ◌≢◌, ◌⊎◌, refl, arith, true, false, ◌==◌, some, ◌∙◌, update, ap,
  sym,
}
use rayos.Strings.{Memory, skip, strlen, strcpy, wcscat}
use rayos.Strings.Copy.{moved}

-- `len` elements that are not zero, and then the terminator.
pub record IsText (mem : Memory) (s len : ℕ) : Type 0 where
  pub end : mem (s + len) ≡ 0
  pub full : (j : ℕ) → s ≤ j → j < s + len → mem j ≢ 0

pub tail-IsText : (mem : Memory) (s len : ℕ) → IsText mem s (suc len) → IsText mem (s + 1) len
tail-IsText mem s len t =
    let next : s + suc len ≡ s + 1 + len = omega arith in
    record {
      end = ap mem (sym next) ∙ t.end;
      full = λ j lo hi. t.full j (omega arith) (omega arith);
    }

pub ended-IsText : (mem : Memory) (s : ℕ) → IsText mem s 0 → (mem s == 0) ≡ true
ended-IsText mem s t = let here : s + 0 ≡ s = omega arith in ground (arith, t.end, ap mem here)

pub more-IsText : (mem : Memory) (s len : ℕ) → IsText mem s (suc len) → (mem s == 0) ≡ false
more-IsText mem s len t =
    let some_element : mem s ≢ 0 = t.full s (omega arith) (omega arith) in ground arith

pub skip_lem :
    (fuel len : ℕ) (mem : Memory) (s : ℕ)
    → len < fuel
    → IsText mem s len
    → skip fuel mem s ≡ some (s + len)
unfolding skip
skip_lem zero len mem s h t = absurd (omega arith)
skip_lem (suc fuel) zero mem s h t = rw (ended-IsText mem s t) (ap some (omega arith))
skip_lem (suc fuel) (suc len) mem s h t =
    let next : s + 1 + len ≡ s + suc len = omega arith in
    rw (more-IsText mem s len t)
      (skip_lem fuel len mem (s + 1) (omega arith) (tail-IsText mem s len t) ∙ ap some next)

-- `strlen` of a text ends, given more fuel than its length, and returns the length.
pub strlen_lem :
    (fuel len : ℕ) (mem : Memory) (s : ℕ)
    → len < fuel
    → IsText mem s len
    → strlen fuel mem s ≡ some len
unfolding strlen
strlen_lem fuel len mem s h t = rw (skip_lem fuel len mem s h t, strlen) (ap some (omega arith))

-- A text is not changed by a write before it or behind its terminator.
pub update-IsText :
    (mem : Memory) (s len i v : ℕ)
    → (i < s) ⊎ (s + len < i)
    → IsText mem s len
    → IsText (update mem i v) s len
update-IsText mem s len i v out t = record {
  end = ground (arith, t.end);
  full = λ j lo hi. let same : (j == i) ≡ false = ground arith in rw same (t.full j lo hi);
}

-- `strcpy` of a text with its terminator ends, given more fuel than the length, and copies it, where
-- the destination does not start within the text.
pub strcpy-moved :
    (fuel len : ℕ) (mem : Memory) (dest src : ℕ)
    → len < fuel
    → IsText mem src len
    → (dest < src) ⊎ (src + len < dest)
    → (new : Memory) × (strcpy fuel mem dest src ≡ some new)
      × ((k : ℕ) → new k ≡ moved mem dest src (suc len) k)
unfolding strcpy
strcpy-moved zero len mem dest src h t apart = absurd (omega arith)
strcpy-moved (suc fuel) zero mem dest src h t apart =
    (update mem dest (mem src), rw (ended-IsText mem src t) refl, λ k. ground arith)
strcpy-moved (suc fuel) (suc len) mem dest src h t apart =
    let (new, runs, copied) =
      strcpy-moved fuel len (update mem dest (mem src)) (dest + 1) (src + 1) (omega arith)
        (update-IsText mem (src + 1) len dest (mem src) (ground arith) (tail-IsText mem src len t))
        (ground arith) in
    (new, rw (more-IsText mem src len t) runs, λ k. copied k ∙ ground arith)

-- `wcscat` appends the text at src, with its terminator, to the one at dest.
pub wcscat-moved :
    (fuel len more : ℕ) (mem : Memory) (dest src : ℕ)
    → len < fuel
    → more < fuel
    → IsText mem dest len
    → IsText mem src more
    → (dest + len < src) ⊎ (src + more < dest)
    → (new : Memory) × (wcscat fuel mem dest src ≡ some new)
      × ((k : ℕ) → new k ≡ moved mem (dest + len) src (suc more) k)
unfolding wcscat
wcscat-moved fuel len more mem dest src h hm t u apart =
    let (new, runs, copied) = strcpy-moved fuel more mem (dest + len) src hm u (ground arith) in
    (new, rw (skip_lem fuel len mem dest h t, wcscat) runs, copied)
