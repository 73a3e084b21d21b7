-- ===== src/Page/Walk.antt =====
-- The processor's walk through the recursive mapping, and one word written to a table.
use rayos.Base.{ℕ, ◌<◌, ◌≡◌, ◌≢◌, refl, arith, true, false, none, some, ◌==◌, if◌then◌else◌}
use rayos.Page.{
  Machine, child, walk, load, store, poke, word_at, map_pml4, map_pdpt, map_pd, map_pt, present,
  frame_of,
}
use rayos.Page.Address.{Splits, map_pml4-Splits, map_pdpt-Splits, map_pd-Splits, map_pt-Splits}

pub walk-Splits :
    (mem : ℕ → ℕ → ℕ) (cr3 va a b c d w p q r : ℕ)
    → Splits va a b c d w
    → child mem cr3 a ≡ some p
    → child mem p b ≡ some q
    → child mem q c ≡ some r
    → walk mem cr3 va ≡ child mem r d
unfolding walk
walk-Splits mem cr3 va a b c d w p q r s e4 e3 e2 = rw (s.0, e4, s.1, e3, s.2, e2, s.3, walk) refl

-- The top table's slot 511 points to the table itself.
abbrev pub Recursive : Machine → Type 0
Recursive m = child m.mem m.cr3 511 ≡ some m.cr3

-- Where a table word's virtual address leads.
pub load-word :
    (m : Machine) (table index a b c d frame : ℕ)
    → Splits (word_at table index) a b c d index
    → walk m.mem m.cr3 (word_at table index) ≡ some frame
    → load table index m ≡ some (m.mem frame index, m)
unfolding load
load-word m table index a b c d frame s e = rw (e, s.4, load) refl

pub store-word :
    (m : Machine) (table index value a b c d frame : ℕ)
    → Splits (word_at table index) a b c d index
    → walk m.mem m.cr3 (word_at table index) ≡ some frame
    → store table index value m ≡ some (tt, record m { mem = poke m.mem frame index value })
unfolding store
store-word m table index value a b c d frame s e = rw (e, s.4, store) refl

module _ (m : Machine) (rec : Recursive m) (i4 i3 i2 : ℕ) (h4 : i4 < 512) (h3 : i3 < 512)
    (h2 : i2 < 512) (w : ℕ) (hw : w < 512) where
  pub walk-pml4 : walk m.mem m.cr3 (word_at map_pml4 w) ≡ some m.cr3
  walk-pml4 =
      rw
        (walk-Splits m.mem m.cr3 _ 511 511 511 511 w m.cr3 m.cr3 m.cr3 (map_pml4-Splits w hw) rec
          rec rec)
        rec

  pub walk-pdpt :
      (t3 : ℕ)
      → child m.mem m.cr3 i4 ≡ some t3
      → walk m.mem m.cr3 (word_at (map_pdpt i4) w) ≡ some t3
  walk-pdpt t3 e3 =
      rw
        (walk-Splits m.mem m.cr3 _ 511 511 511 i4 w m.cr3 m.cr3 m.cr3 (map_pdpt-Splits i4 w h4 hw)
          rec rec rec)
        e3

  pub walk-pd :
      (t3 t2 : ℕ)
      → child m.mem m.cr3 i4 ≡ some t3
      → child m.mem t3 i3 ≡ some t2
      → walk m.mem m.cr3 (word_at (map_pd i4 i3) w) ≡ some t2
  walk-pd t3 t2 e3 e2 =
      rw
        (walk-Splits m.mem m.cr3 _ 511 511 i4 i3 w m.cr3 m.cr3 t3 (map_pd-Splits i4 i3 w h4 h3 hw)
          rec rec e3)
        e2

  pub walk-pt :
      (t3 t2 t1 : ℕ)
      → child m.mem m.cr3 i4 ≡ some t3
      → child m.mem t3 i3 ≡ some t2
      → child m.mem t2 i2 ≡ some t1
      → walk m.mem m.cr3 (word_at (map_pt i4 i3 i2) w) ≡ some t1
  walk-pt t3 t2 t1 e3 e2 e1 =
      rw
        (walk-Splits m.mem m.cr3 _ 511 i4 i3 i2 w m.cr3 t3 t2 (map_pt-Splits i4 i3 i2 w h4 h3 h2 hw)
          rec e3 e2)
        e1

-- A word written to one table changes no entry of another.
pub child-poke_ne :
    (mem : ℕ → ℕ → ℕ) (frame word value t i : ℕ)
    → t ≢ frame
    → child (poke mem frame word value) t i ≡ child mem t i
unfolding child poke
child-poke_ne mem frame word value t i h =
    let same : (t == frame) ≡ false = ground arith in rw same refl

pub child-poke_other :
    (mem : ℕ → ℕ → ℕ) (frame word value i : ℕ)
    → i ≢ word
    → child (poke mem frame word value) frame i ≡ child mem frame i
unfolding child poke
child-poke_other mem frame word value i h =
    let here : (frame == frame) ≡ true = ground arith in
    let same : (i == word) ≡ false = ground arith in rw (here, same) refl

pub child-poke_self :
    (mem : ℕ → ℕ → ℕ) (frame word value : ℕ)
    → child (poke mem frame word value) frame word
      ≡ (if present value then some (frame_of value) else none)
unfolding child poke
child-poke_self mem frame word value =
    let here : (frame == frame) ≡ true = ground arith in
    let same : (word == word) ≡ true = ground arith in rw (here, same) refl
