-- ===== src/Locks/Fetch.antt =====
-- The retry loops of `atomic_fetch_or` and `atomic_fetch_and`.
use rayos.Base.{
  ℕ, zero, suc, ◌/◌, ◌%◌, ◌^◌, ◌*◌, ◌<◌, ◌≡◌, ◌≢◌, ==→eq, refl, arith, true, ◌==◌, if◌then◌else◌,
  inl, inr, Option, some, Bool-cases, ◌∙◌,
}
use rayos.Locks.{atomic_compare_exchange, fetch_loop}

pub exchange-clear :
    (residue word expected desired : ℕ)
    → residue < 256
    → atomic_compare_exchange residue word expected desired
      ≡ (if word == expected then (1, desired, expected) else (0, word, word))
unfolding atomic_compare_exchange
exchange-clear residue word expected desired clear =
    let low : residue % 2 ^ 32 / 256 * 256 ≡ 0 = omega arith in
    rw (low, atomic_compare_exchange) refl

-- The rounds from the one that loads `word`, with `fuel` rounds behind it, up to the first whose
-- exchange meets the word that it has loaded, which is `old`. Otherwise the next round loads the word
-- that the exchange has met.
pub data Rounds (others : ℕ → ℕ → ℕ) : ℕ → ℕ → ℕ → Type 0 where
  met : {fuel word : ℕ} → others fuel word ≡ word → Rounds others fuel word word
  again :
      {fuel word old : ℕ}
      → others (suc fuel) word ≢ word
      → Rounds others fuel (others (suc fuel) word) old
      → Rounds others (suc fuel) word old

module _ (op : ℕ → ℕ → ℕ) (others : ℕ → ℕ → ℕ) (residue val : ℕ) (clear : residue < 256) where
  abbrev pub Returned : ℕ → ℕ → Option (ℕ × ℕ) → Type 0
  Returned fuel word r = (old : ℕ) × Rounds others fuel word old × (r ≡ some (old, op old val))

  -- A round succeeds exactly if the word is what was loaded.
  fetch_round :
      (fuel word : ℕ)
      → fetch_loop (suc fuel) op others residue word val ≡ (
          if others fuel word == word
          then some (word, op word val)
          else fetch_loop fuel op others residue (others fuel word) val)
  unfolding fetch_loop
  fetch_round fuel word = elim (Bool-cases (others fuel word == word)) [
    | inl same ↦
        rw (exchange-clear residue (others fuel word) word (op word val) clear, same, fetch_loop)
          refl
    | inr changed ↦
        rw (exchange-clear residue (others fuel word) word (op word val) clear, changed, fetch_loop)
          refl
  ]

  at_once :
      (fuel word : ℕ)
      → others fuel word ≡ word
      → Returned fuel word (fetch_loop (suc fuel) op others residue word val)
  at_once fuel word quiet =
      let same : (others fuel word == word) ≡ true = ground (arith, quiet) in
      (word, Rounds.met quiet, fetch_round fuel word ∙ rw same refl)

  pub fetch_loop-Returned :
      (fuel word : ℕ)
      → ((w : ℕ) → others 0 w ≡ w)
      → Returned fuel word (fetch_loop (suc fuel) op others residue word val)
  fetch_loop-Returned zero word quiet = at_once zero word (quiet word)
  fetch_loop-Returned (suc fuel) word quiet = elim (Bool-cases (others (suc fuel) word == word)) [
    | inl same ↦ at_once (suc fuel) word (==→eq _ _ same)
    | inr changed ↦
        let (old, rounds, returned) = fetch_loop-Returned fuel (others (suc fuel) word) quiet in
        let differs : others (suc fuel) word ≢ word = ground arith in
        (old, Rounds.again differs rounds, fetch_round (suc fuel) word ∙ rw changed returned)
  ]
