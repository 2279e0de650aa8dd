-- ===== src/Pages/Registering.antt =====
-- The page for a new account runs one operation at a time, and posts what the API asks for.
use sentinel_project.Base.{
  Bool, Bool-cases, List, String, [], arith, false, if◌then◌else◌, inl, inr, not, refl, subst, sym,
  true, ◌&&◌, ◌∷◌, ◌≡◌,
}
use sentinel_project.Base.Text.{Platform}
use sentinel_project.Pages.{Reply, rejected, succeeded}
use sentinel_project.Pages.RegisterForm.{is_registration}
use sentinel_project.Pages.RegisterPage.{
  RegisterEvent, RegisterOperation, RegisterPage, blank_page, demo_access, handle_register,
  handle_registers, register_answered, register_demo, register_submitted, registration,
  registration_answer, settled_operation,
}

abbrev is_demo_access : RegisterOperation → Bool
is_demo_access registration = false
is_demo_access demo_access = true

-- The requests without an answer, with `busyRef` and `demoSubmitting`.
abbrev pub Alone : List RegisterOperation → Bool → Bool → Type 0
Alone [] busy trying = (busy ≡ false) × (trying ≡ false)
Alone (o ∷ []) busy trying = (busy ≡ true) × (trying ≡ is_demo_access o)
Alone (o ∷ x ∷ xs) busy trying = ⊥

abbrev pub IsAlone : RegisterPage → Type 0
IsAlone s = Alone s.running s.busy s.demo_submitting

idle_runs :
    (xs : List RegisterOperation) (b d : Bool) → b ≡ false → Alone xs b d → (xs ≡ []) × (d ≡ false)
idle_runs [] b d e h = (refl, h.1)
idle_runs (o ∷ []) b d e h = absurd (let k = h.0 in cc)
idle_runs (o ∷ x ∷ xs) b d e h = absurd h

start-IsAlone :
    (o : RegisterOperation) (xs : List RegisterOperation) (b d : Bool)
    → b ≡ false
    → Alone xs b d
    → Alone (o ∷ xs) true (if is_demo_access o then true else d)
start-IsAlone registration xs b d e h =
    let (empty, still) = idle_runs xs b d e h in rw empty (refl, still)
start-IsAlone demo_access xs b d e h =
    let (empty, still) = idle_runs xs b d e h in rw empty (refl, refl)

answer-IsAlone :
    (p : Platform) (o : RegisterOperation) (a : Reply) (xs : List RegisterOperation)
    (s : RegisterPage)
    → s.running ≡ xs
    → Alone xs s.busy s.demo_submitting
    → IsAlone (registration_answer p o a (settled_operation o xs) s)
answer-IsAlone p o a [] s e h = subst (λ r. Alone r s.busy s.demo_submitting) (sym e) h
answer-IsAlone p registration succeeded (registration ∷ []) s e h = (refl, h.1)
answer-IsAlone p registration (rejected f) (registration ∷ []) s e h = (refl, h.1)
answer-IsAlone p demo_access succeeded (demo_access ∷ []) s e h = (refl, refl)
answer-IsAlone p demo_access (rejected f) (demo_access ∷ []) s e h = (refl, refl)
answer-IsAlone p registration a (demo_access ∷ []) s e h =
    subst (λ r. Alone r s.busy s.demo_submitting) (sym e) h
answer-IsAlone p demo_access a (registration ∷ []) s e h =
    subst (λ r. Alone r s.busy s.demo_submitting) (sym e) h
answer-IsAlone p o a (x ∷ y ∷ xs) s e h = absurd h

handle_register-IsAlone :
    (p : Platform) (is_email : String → Bool) (e : RegisterEvent) (s : RegisterPage)
    → IsAlone s
    → IsAlone (handle_register p is_email e s)
unfolding handle_register
handle_register-IsAlone p is_email (register_submitted v) s h =
    elim (Bool-cases (is_registration is_email v && not s.busy)) [
      | inl e ↦
          rw (e, if◌then◌else◌)
            (start-IsAlone registration s.running s.busy s.demo_submitting (ground (arith, e)) h)
      | inr e ↦ rw (e, if◌then◌else◌) h
    ]
handle_register-IsAlone p is_email register_demo s h = elim (Bool-cases s.busy) [
  | inl e ↦ rw (e, if◌then◌else◌) (rw e at h)
  | inr e ↦ rw (e, if◌then◌else◌) (start-IsAlone demo_access s.running s.busy s.demo_submitting e h)
]
handle_register-IsAlone p is_email (register_answered o a) s h =
    answer-IsAlone p o a s.running s refl h

run_from-IsAlone :
    (p : Platform) (is_email : String → Bool) (es : List RegisterEvent) (s : RegisterPage)
    → IsAlone s
    → IsAlone (handle_registers p is_email es s)
unfolding handle_registers
run_from-IsAlone p is_email [] s h = h
run_from-IsAlone p is_email (e ∷ es) s h =
    run_from-IsAlone p is_email es (handle_register p is_email e s)
      (handle_register-IsAlone p is_email e s h)

-- However the user clicks and whenever answers come, the page runs at most one operation, a
-- registration or the access to the demo; `busyRef` holds exactly while one runs, and
-- `demoSubmitting` exactly while it is that of the demo.
pub handle_registers-IsAlone :
    (p : Platform) (is_email : String → Bool) (es : List RegisterEvent)
    → IsAlone (handle_registers p is_email es blank_page)
handle_registers-IsAlone p is_email es = run_from-IsAlone p is_email es blank_page (refl, refl)
