-- ===== src/Sched/Context.antt =====
-- The first context of a kernel task, and the ways in which `run_thread` ends.
use rayos.Base.{
  ℕ, zero, suc, ◌+◌, ◌-◌, ◌*◌, ◌%◌, ◌^◌, ◌≤◌, ◌<◌, ◌≡◌, ◌≢◌, ◌⊎◌, refl, arith, false, ◌==◌, update,
  update_self, update_ne, inl, inr, ◌∙◌, pos,
}
use rayos.Sched.{Task}
use rayos.Sched.Start.{clear_context, init_stack, kerntask_create}

clear_context-outside :
    (at n x : ℕ) (words : ℕ → ℕ)
    → (x < at) ⊎ (at + n * 8 ≤ x)
    → clear_context at n words x ≡ words x
unfolding clear_context
clear_context-outside at zero x words h = refl
clear_context-outside at (suc n) x words h =
    clear_context-outside (at + 8) n x (update words at 0)
      (elim h [ inl lo ↦ inl (omega arith) | inr hi ↦ inr (omega arith) ])
    ∙ update_ne words at x 0
        (λ e. elim h [ inl lo ↦ absurd (omega arith) | inr hi ↦ absurd (omega arith) ])

clear_context-inside :
    (n at j : ℕ) (words : ℕ → ℕ) → j < n → clear_context at n words (at + j * 8) ≡ 0
unfolding clear_context
clear_context-inside zero at j words h = absurd (omega arith)
clear_context-inside (suc n) at zero words h =
    let here : at + 0 * 8 ≡ at = omega arith in
    rw here (
      clear_context-outside (at + 8) n at (update words at 0) (inl (omega arith))
      ∙ update_self words at 0)
clear_context-inside (suc n) at (suc j) words h =
    let here : at + suc j * 8 ≡ at + 8 + j * 8 = omega arith in
    rw here (clear_context-inside n (at + 8) j (update words at 0) (omega arith))

-- From `rsp` on stand a context with rdi = `args`, the flags 0x202 and 0 in every other register, and
-- behind it `thread_func`; every other word is as in `before`.
pub record FirstContext (rsp thread_func args : ℕ) (words before : ℕ → ℕ) : Type 0 where
  pub rdi : words (rsp + 72) ≡ args
  pub rflags : words (rsp + 120) ≡ 0x202
  pub return : words (rsp + 128) ≡ thread_func
  pub zeros : (j : ℕ) → j < 16 → j ≢ 9 → j ≢ 15 → words (rsp + j * 8) ≡ 0
  pub others : (x : ℕ) → (x < rsp) ⊎ (rsp + 136 ≤ x) → words x ≡ before x

module _ (rsp thread_func args : ℕ) (words : ℕ → ℕ) where
  pushed : ℕ → ℕ
  pushed = update words (rsp + 128) thread_func

  cleared : ℕ → ℕ
  cleared = clear_context rsp 16 pushed

  after : ℕ → ℕ
  after = update (update cleared (rsp + 72) args) (rsp + 120) 0x202

  kept : (x : ℕ) → x ≢ rsp + 72 → x ≢ rsp + 120 → after x ≡ cleared x
  unfolding after
  kept x a b =
      update_ne (update cleared (rsp + 72) args) (rsp + 120) x 0x202 b
      ∙ update_ne cleared (rsp + 72) x args a

  after-FirstContext : FirstContext rsp thread_func args after words
  unfolding after cleared pushed
  after-FirstContext = record {
    rdi =
        update_ne (update cleared (rsp + 72) args) (rsp + 120) (rsp + 72) 0x202
          (λ e. absurd (omega arith))
        ∙ update_self cleared (rsp + 72) args;
    rflags = update_self (update cleared (rsp + 72) args) (rsp + 120) 0x202;
    return =
        kept (rsp + 128) (λ e. absurd (omega arith)) (λ e. absurd (omega arith))
        ∙ clear_context-outside rsp 16 (rsp + 128) pushed (inr (omega arith))
        ∙ update_self words (rsp + 128) thread_func;
    zeros = λ j h a b.
        kept (rsp + j * 8) (λ e. a (omega arith)) (λ e. b (omega arith))
        ∙ clear_context-inside 16 rsp j pushed h;
    others = λ x h.
        let free : (x ≢ rsp + 72)
            × (x ≢ rsp + 120)
            × (x ≢ rsp + 128)
            × ((x < rsp) ⊎ (rsp + 16 * 8 ≤ x)) =
          elim h [
            | inl lo ↦ (
              λ e. absurd (omega arith),
              λ e. absurd (omega arith),
              λ e. absurd (omega arith),
              inl lo,
            )
            | inr hi ↦ (
              λ e. absurd (omega arith),
              λ e. absurd (omega arith),
              λ e. absurd (omega arith),
              inr (omega arith),
            )
          ] in
        kept x free.0 free.1
        ∙ clear_context-outside rsp 16 x pushed free.3
        ∙ update_ne words (rsp + 128) x thread_func free.2;
  }

  pub init_stack-FirstContext :
      FirstContext rsp thread_func args (init_stack (rsp + 136) thread_func args words) words
  unfolding init_stack after cleared pushed
  init_stack-FirstContext =
      let context : rsp + 136 - 8 - 128 ≡ rsp = omega arith in
      let top : rsp + 136 - 8 ≡ rsp + 128 = omega arith in
      rw (init_stack, context, top) after-FirstContext

-- `__kerntask_create` with a stack: the stack pointer leads to a context with the argument in rdi,
-- interrupts enabled and 0 in every other register, and behind it to the thread's function; no word
-- outside these 136 bytes at the stack's end changes.
pub kerntask_create-FirstContext :
    (cr3 stack rsp0_base thread_func args : ℕ) (task : Task) (words : ℕ → ℕ)
    → stack ≢ 0
    → (task' : Task) × (words' : ℕ → ℕ) × (kerntask_create cr3 stack rsp0_base thread_func args task
          words
        ≡ (pos 0, task', words'))
      × (task'.rsp + 136 ≡ stack + 16384)
      × FirstContext task'.rsp thread_func args words' words
unfolding kerntask_create
kerntask_create-FirstContext cr3 stack rsp0_base thread_func args task words h =
    let there : (stack == 0) ≡ false = ground arith in
    let rsp : ℕ = stack + 16248 in
    let at : stack + 16384 - 8 - 128 ≡ rsp = omega arith in
    let top : stack + 16384 ≡ rsp + 136 = omega arith in
    (
      record task {
        pml4 = cr3;
        stack = stack;
        rsp0_base = rsp0_base;
        rsp0 = (rsp0_base + 4096) % 2 ^ 64;
        rsp = rsp;
      },
      init_stack (rsp + 136) thread_func args words,
      rw (there, at, top) refl,
      omega arith,
      init_stack-FirstContext rsp thread_func args words,
    )
