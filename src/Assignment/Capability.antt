-- ===== src/Assignment/Capability.antt =====
-- What `unsupportedSpecs` tells a student, and how it relates to the ranking of printers.
use print_q.Base.{
  ℕ, ◌≡◌, ◌≢◌, refl, ◌↔◌, ◌⊎◌, inl, inr, Bool, true, false, none, List, [], ◌∷◌, ◌++◌, arith, any,
  not, ◌&&◌, Bool-cases, if◌then◌else◌,
}
use print_q.Job.{JobSpecs}
use print_q.Assignment.{
  PrinterProfile, QueuedJobLite, printer_matches_specs, paper_loaded, color_able, binding_able,
  is_online, rank_printers, unsupported_specs, note_unless, UnsupportedCode, color, paper_size,
  binding, combination,
}
use print_q.Assignment.Ranking.{rank_printers-none}

-- The hardware of one printer can make the whole job.
abbrev pub makes : JobSpecs → PrinterProfile → Bool
makes specs p = paper_loaded specs p && color_able specs p && binding_able specs p

any_mono :
    (p q : PrinterProfile → Bool) (xs : List PrinterProfile)
    → ((x : PrinterProfile) → p x ≡ true → q x ≡ true)
    → any p xs ≡ true
    → any q xs ≡ true
any_mono p q [] h e = e
any_mono p q (x ∷ xs) h e = ground (arith, h x, any_mono p q xs h)

parts_of_makes :
    (specs : JobSpecs) (p : PrinterProfile)
    → makes specs p ≡ true
    → (paper_loaded specs p ≡ true) × (color_able specs p ≡ true) × (binding_able specs p ≡ true)
parts_of_makes specs p h =
    all_three (paper_loaded specs p) (color_able specs p) (binding_able specs p) h
  where
    all_three : (a b c : Bool) → a && b && c ≡ true → (a ≡ true) × (b ≡ true) × (c ≡ true)
    all_three a b c h = ground arith

-- The list of problems from the four answers, as `unsupportedSpecs` builds it.
problems : Bool → Bool → Bool → Bool → List UnsupportedCode
problems paper col bind jointly =
    elim (note_unless paper paper_size ++ (note_unless col color ++ note_unless bind binding)) [
      | [] ↦ note_unless jointly combination
      | code ∷ codes ↦ code ∷ codes
    ]

problems-nil :
    (paper col bind jointly : Bool)
    → (jointly ≡ true → (paper ≡ true) × (col ≡ true) × (bind ≡ true))
    → (problems paper col bind jointly ≡ []) ↔ (jointly ≡ true)
unfolding problems
problems-nil true true true j h = ground arith
problems-nil true true false j h = ground arith
problems-nil true false b j h = ground arith
problems-nil false c b j h = ground arith

-- Nothing is reported as unsupported exactly when the shop has no printer profile, or one of its
-- printers, online or not, has the paper, the colour and the binding of the job together.
pub unsupported_specs-nil :
    (printers : List PrinterProfile) (specs : JobSpecs)
    → (unsupported_specs printers specs ≡ [])
      ↔ ((printers ≡ []) ⊎ (any (makes specs) printers ≡ true))
unfolding unsupported_specs problems
unsupported_specs-nil [] specs = (λ _. inl refl, λ _. refl)
unsupported_specs-nil (p ∷ more) specs =
    let printers = p ∷ more in
    let answer =
      problems-nil (any (paper_loaded specs) printers) (any (color_able specs) printers)
        (any (binding_able specs) printers) (any (makes specs) printers)
        λ h. (
          any_mono (makes specs) (paper_loaded specs) printers (λ x e. (parts_of_makes specs x e).0)
              h,
          any_mono (makes specs) (color_able specs) printers (λ x e. (parts_of_makes specs x e).1)
              h,
          any_mono (makes specs) (binding_able specs) printers (λ x e. (parts_of_makes specs x e).2)
              h,
        ) in
    (λ h. inr (answer.0 h), elim [ inl e ↦ absurd (cc) | inr e ↦ answer.1 e ])

matches-makes :
    (specs : JobSpecs) (p : PrinterProfile)
    → printer_matches_specs p specs ≡ true
    → makes specs p ≡ true
unfolding printer_matches_specs
matches-makes specs p h =
    ladder (is_online p.status) (paper_loaded specs p) (color_able specs p) (binding_able specs p) h
  where
    ladder :
        (a b c d : Bool)
        → (if not a
            then false
            else if not b
            then false
            else if not c
            then false
            else if not d
            then false
            else true)
          ≡ true
        → b && c && d ≡ true
    ladder a b c d h = ground arith

-- When an order is reported as unsupported, no state of the queue makes `rankPrinters` recommend a
-- printer for it: what the student is told at ordering time agrees with the counter.
pub unsupported_specs-rank_printers :
    (printers : List PrinterProfile) (specs : JobSpecs) (job_pages : ℕ)
    (queued_jobs : List QueuedJobLite)
    → unsupported_specs printers specs ≢ []
    → (rank_printers printers specs job_pages queued_jobs).recommended ≡ none
unsupported_specs-rank_printers printers specs job_pages queued_jobs h =
    (rank_printers-none specs job_pages queued_jobs printers).1
      (elim (Bool-cases (any (λ p. printer_matches_specs p specs) printers)) [
        | inl e ↦ absurd (
            h (
              (unsupported_specs-nil printers specs).1 (
                inr (
                  any_mono (λ p. printer_matches_specs p specs) (makes specs) printers
                    (matches-makes specs) e))))
        | inr e ↦ e
      ])
