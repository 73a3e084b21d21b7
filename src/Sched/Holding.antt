-- ===== src/Sched/Holding.antt =====
-- What a task holds, said of each thing by itself, against what the scheduler gives back for it.
use rayos.Base.{
  ℕ, ◌+◌, ◌*◌, ◌<◌, ◌≡◌, ◌⊎◌, refl, arith, true, false, ◌==◌, if◌then◌else◌, List, [], ◌∷◌, ◌++◌,
  length, inl, inr, Bool-cases, ap, subst,
}
use rayos.Sched.{
  flags_user, flags_kern, Segment, Frames, Task, Release, release_segments, release_task,
  release_all,
}

-- Every entry of a list has the property.
abbrev pub All : {A : Type 0} → (A → Type 0) → List A → Type 0
All P [] = Unit
All P (x ∷ xs) = P x × All P xs

abbrev pub In : {A : Type 0} → A → List A → Type 0
In a [] = 1 < 0
In a (x ∷ xs) = (a ≡ x) ⊎ In a xs

All-append : {A : Type 0} (P : A → Type 0) (xs ys : List A) → All P xs → All P ys → All P (xs ++ ys)
All-append P [] ys a b = b
All-append P (x ∷ xs) ys (h, a) b = (h, All-append P xs ys a b)

All-weaken :
    {A : Type 0} (P Q : A → Type 0) (xs : List A) → ((x : A) → P x → Q x) → All P xs → All Q xs
All-weaken P Q [] f a = tt
All-weaken P Q (x ∷ xs) f (h, a) = (f x h, All-weaken P Q xs f a)

In-left : {A : Type 0} (a : A) (xs ys : List A) → In a xs → In a (xs ++ ys)
In-left a [] ys i = absurd (omega (arith, i))
In-left a (x ∷ xs) ys (inl e) = inl e
In-left a (x ∷ xs) ys (inr i) = inr (In-left a xs ys i)

In-right : {A : Type 0} (a : A) (xs ys : List A) → In a ys → In a (xs ++ ys)
In-right a [] ys i = i
In-right a (x ∷ xs) ys i = inr (In-right a xs ys i)

abbrev pub segment_frames : Segment → Frames
segment_frames p = record { phys = p.phys; order = p.order }

-- The task t holds its `task_struct` and its stack for interrupts; a kernel task a stack besides; and a
-- user task the frames of its stack and of its page tables on four levels, and for each load segment
-- the frames and the entry of the list.
pub data Holding (t : ℕ) (k : Task) : Release → Type 0 where
  kern_struct : k.flags ≡ flags_kern → Holding t k (Release.block t)
  kern_rsp0 : k.flags ≡ flags_kern → Holding t k (Release.block k.rsp0_base)
  kern_stack : k.flags ≡ flags_kern → Holding t k (Release.block k.stack)
  user_struct : k.flags ≡ flags_user → Holding t k (Release.block t)
  user_rsp0 : k.flags ≡ flags_user → Holding t k (Release.block k.rsp0_base)
  user_stack : k.flags ≡ flags_user → Holding t k (Release.frames k.stack_frames)
  user_pml4 : k.flags ≡ flags_user → Holding t k (Release.frames k.user_pml4)
  user_pdpt : k.flags ≡ flags_user → Holding t k (Release.frames k.user_pdpt)
  user_pd : k.flags ≡ flags_user → Holding t k (Release.frames k.user_pd)
  user_pt : k.flags ≡ flags_user → Holding t k (Release.frames k.user_pt)
  segment :
      (p : Segment)
      → k.flags ≡ flags_user
      → In p k.ls_addr
      → Holding t k (Release.frames (segment_frames p))
  segment_entry :
      (p : Segment) → k.flags ≡ flags_user → In p k.ls_addr → Holding t k (Release.block p.object)

-- How many things a task holds.
abbrev pub holdings : Task → ℕ
holdings k =
    if k.flags == flags_kern
    then 3
    else (if k.flags == flags_user then 7 + 2 * length k.ls_addr else 0)

length-append : {A : Type 0} (xs ys : List A) → length (xs ++ ys) ≡ length xs + length ys
length-append [] ys = omega arith
length-append (x ∷ xs) ys = omega (arith, length-append xs ys)

length-release_segments : (ps : List Segment) → length (release_segments ps) ≡ 2 * length ps
unfolding release_segments
length-release_segments [] = refl
length-release_segments (p ∷ ps) = omega (arith, length-release_segments ps)

release_segments-All :
    (P : Release → Type 0) (ps : List Segment)
    → ((p : Segment) → In p ps → P (Release.frames (segment_frames p)) × P (Release.block p.object))
    → All P (release_segments ps)
unfolding release_segments
release_segments-All P [] f = tt
release_segments-All P (p ∷ ps) f =
    let (a, b) = f p (inl refl) in (a, (b, release_segments-All P ps (λ q i. f q (inr i))))

release_segments-In :
    (p : Segment) (ps : List Segment)
    → In p ps
    → In (Release.frames (segment_frames p)) (release_segments ps)
      × In (Release.block p.object) (release_segments ps)
unfolding release_segments
release_segments-In p [] i = absurd (omega (arith, i))
release_segments-In p (q ∷ qs) (inl e) = (
  inl (ap (λ r. Release.frames (segment_frames r)) e),
  inr (inl (ap (λ (r : Segment). Release.block r.object) e)),
)
release_segments-In p (q ∷ qs) (inr i) =
    let (a, b) = release_segments-In p qs i in (inr (inr a), inr (inr b))

module _ (t : ℕ) (k : Task) where
  abbrev user_list : List Release
  user_list =
      Release.frames k.user_pml4
      ∷ Release.frames k.user_pdpt
      ∷ Release.frames k.user_pd
      ∷ Release.frames k.user_pt
      ∷ Release.frames k.stack_frames
      ∷ (release_segments k.ls_addr ++ (Release.block k.rsp0_base ∷ Release.block t ∷ []))

  of_user : k.flags ≡ flags_user → release_task t k ≡ user_list
  unfolding release_task
  of_user e =
      let other : (k.flags == flags_kern) ≡ false = ground (arith, e) in
      let here : (k.flags == flags_user) ≡ true = ground (arith, e) in rw (other, here) refl

  of_kern :
      k.flags ≡ flags_kern
      → release_task t k ≡ Release.block k.rsp0_base ∷ Release.block k.stack ∷ Release.block t ∷ []
  unfolding release_task
  of_kern e = let here : (k.flags == flags_kern) ≡ true = ground (arith, e) in rw here refl

  release_task-Holding : All (Holding t k) (release_task t k)
  unfolding release_task
  release_task-Holding = elim (Bool-cases (k.flags == flags_kern)) [
    | inl kern ↦
        let e : k.flags ≡ flags_kern = ground arith in
        rw (of_kern e) (Holding.kern_rsp0 e, (Holding.kern_stack e, (Holding.kern_struct e, tt)))
    | inr other ↦ elim (Bool-cases (k.flags == flags_user)) [
      | inr neither ↦ rw (other, neither) tt
      | inl user ↦
          let e : k.flags ≡ flags_user = ground arith in
          rw (of_user e) (
            Holding.user_pml4 e,
            (
              Holding.user_pdpt e,
              (
                Holding.user_pd e,
                (
                  Holding.user_pt e,
                  (
                    Holding.user_stack e,
                    All-append (Holding t k) (release_segments k.ls_addr)
                        (Release.block k.rsp0_base ∷ Release.block t ∷ [])
                        (release_segments-All (Holding t k) k.ls_addr
                          (λ p i. (Holding.segment p e i, Holding.segment_entry p e i)))
                        (Holding.user_rsp0 e, (Holding.user_struct e, tt)),
                  ),
                ),
              ),
            ),
          )
    ]
  ]

  abbrev last_two : List Release
  last_two = Release.block k.rsp0_base ∷ Release.block t ∷ []

  Holding-release_task : (r : Release) → Holding t k r → In r (release_task t k)
  Holding-release_task _ (Holding.kern_rsp0 e) = rw (of_kern e) (inl refl)
  Holding-release_task _ (Holding.kern_stack e) = rw (of_kern e) (inr (inl refl))
  Holding-release_task _ (Holding.kern_struct e) = rw (of_kern e) (inr (inr (inl refl)))
  Holding-release_task _ (Holding.user_pml4 e) = rw (of_user e) (inl refl)
  Holding-release_task _ (Holding.user_pdpt e) = rw (of_user e) (inr (inl refl))
  Holding-release_task _ (Holding.user_pd e) = rw (of_user e) (inr (inr (inl refl)))
  Holding-release_task _ (Holding.user_pt e) = rw (of_user e) (inr (inr (inr (inl refl))))
  Holding-release_task _ (Holding.user_stack e) = rw (of_user e) (inr (inr (inr (inr (inl refl)))))
  Holding-release_task _ (Holding.user_rsp0 e) =
      rw (of_user e)
        (inr (inr (inr (inr (inr (In-right _ (release_segments k.ls_addr) last_two (inl refl)))))))
  Holding-release_task _ (Holding.user_struct e) = rw (of_user e) (
      inr
        (inr (inr (inr (inr (In-right _ (release_segments k.ls_addr) last_two (inr (inl refl))))))))
  Holding-release_task _ (Holding.segment p e i) = rw (of_user e) (
      inr (
        inr (
          inr (
            inr (
              inr (
                In-left _ (release_segments k.ls_addr) last_two
                  (release_segments-In p k.ls_addr i).0))))))
  Holding-release_task _ (Holding.segment_entry p e i) = rw (of_user e) (
      inr (
        inr (
          inr (
            inr (
              inr (
                In-left _ (release_segments k.ls_addr) last_two
                  (release_segments-In p k.ls_addr i).1))))))

  length-release_task : length (release_task t k) ≡ holdings k
  unfolding release_task
  length-release_task = elim (Bool-cases (k.flags == flags_kern)) [
    | inl kern ↦ rw kern refl
    | inr other ↦ elim (Bool-cases (k.flags == flags_user)) [
      | inr neither ↦ rw (other, neither) refl
      | inl user ↦
          rw (other, user)
            (omega (
              arith,
              length-append (release_segments k.ls_addr) last_two,
              length-release_segments k.ls_addr,
            ))
    ]
  ]

abbrev pub total_holdings : (ℕ → Task) → List ℕ → ℕ
total_holdings task [] = 0
total_holdings task (t ∷ ts) = holdings (task t) + total_holdings task ts

-- The list is what the tasks hold: each entry is held by one of them, all that they hold is in it, and
-- it has as many entries as they hold things.
pub record GivesBack (task : ℕ → Task) (tasks : List ℕ) (given : List Release) : Type 0 where
  pub held : All (λ r. (t : ℕ) × In t tasks × Holding t (task t) r) given
  pub complete : (t : ℕ) (r : Release) → In t tasks → Holding t (task t) r → In r given
  pub count : length given ≡ total_holdings task tasks

pub release_all-GivesBack :
    (task : ℕ → Task) (tasks : List ℕ) → GivesBack task tasks (release_all task tasks)
unfolding release_all
release_all-GivesBack task [] = record {
  held = tt;
  complete = λ t r i h. absurd (omega (arith, i));
  count = refl;
}
release_all-GivesBack task (t ∷ ts) =
    let rest = release_all-GivesBack task ts in
    record {
      held =
          All-append (λ r. (u : ℕ) × In u (t ∷ ts) × Holding u (task u) r) (release_task t (task t))
            (release_all task ts)
            (All-weaken (Holding t (task t)) (λ r. (u : ℕ) × In u (t ∷ ts) × Holding u (task u) r)
              (release_task t (task t)) (λ r h. (t, inl refl, h)) (release_task-Holding t (task t)))
            (All-weaken (λ r. (u : ℕ) × In u ts × Holding u (task u) r)
              (λ r. (u : ℕ) × In u (t ∷ ts) × Holding u (task u) r) (release_all task ts)
              (λ r (u, i, h). (u, inr i, h)) rest.held);
      complete = complete rest;
      count = omega (
        arith,
        length-append (release_task t (task t)) (release_all task ts),
        length-release_task t (task t),
        rest.count,
      );
    }
  where
    complete :
        GivesBack task ts (release_all task ts)
        → (u : ℕ) (r : Release) → In u (t ∷ ts)
        → Holding u (task u) r
        → In r (release_task t (task t) ++ release_all task ts)
    complete rest u r (inl e) h =
        In-left r (release_task t (task t)) (release_all task ts)
          (Holding-release_task t (task t) r (subst (λ x. Holding x (task x) r) e h))
    complete rest u r (inr i) h =
        In-right r (release_task t (task t)) (release_all task ts) (rest.complete u r i h)
