-- ===== src/Assignment/Ranking.antt =====
-- What `rankPrinters` recommends.
use print_q.Base.{
  ℕ, ◌≡◌, refl, subst, ◌↔◌, true, false, none, some, List, [], ◌∷◌, arith, All, any, head?, inl,
  inr, Bool-cases, keep,
}
use mathlib.Core.List.{Memᴰ}
use mathlib.Core.Option.{some-injective}
use print_q.Base.Sorting.{sort, sort-All, sort-head, sort-nil}
use print_q.Job.{JobSpecs}
use print_q.Assignment.{
  PrinterProfile, QueuedJobLite, PrinterRecommendation, printer_matches_specs, recommendation,
  eligible_printers, ranks_before, rank_printers,
}

ranks_before_total :
    (a b : PrinterRecommendation) → ranks_before a b ≡ false → ranks_before b a ≡ true
ranks_before_total a b h = ground arith

ranks_before_trans :
    (a b c : PrinterRecommendation)
    → ranks_before a b ≡ true
    → ranks_before b c ≡ true
    → ranks_before a c ≡ true
ranks_before_trans a b c h k = ground arith

module _ (specs : JobSpecs) (job_pages : ℕ) (queued_jobs : List QueuedJobLite) where
  -- A recommendation of one of the printers, which can make the job.
  abbrev pub Fits : List PrinterProfile → PrinterRecommendation → Type 0
  Fits printers r =
      (p : PrinterProfile) × Memᴰ p printers
      × (printer_matches_specs p specs ≡ true)
      × (r ≡ recommendation specs job_pages queued_jobs p)

  Fits-cons :
      (p : PrinterProfile) (printers : List PrinterProfile) (rs : List PrinterRecommendation)
      → All (Fits printers) rs
      → All (Fits (p ∷ printers)) rs
  Fits-cons p printers [] h = tt
  Fits-cons p printers (r ∷ rs) ((q, m, k, e), h) =
      ((q, Memᴰ.tail m, k, e), Fits-cons p printers rs h)

  eligible_printers-Fits :
      (printers : List PrinterProfile)
      → All (Fits printers) (eligible_printers specs job_pages queued_jobs printers)
  unfolding eligible_printers
  eligible_printers-Fits [] = tt
  eligible_printers-Fits (p ∷ printers) = elim (Bool-cases (printer_matches_specs p specs)) [
    | inl e ↦
        rw e
          ((p, Memᴰ.head refl, e, refl), Fits-cons p printers _ (eligible_printers-Fits printers))
    | inr e ↦ rw e (Fits-cons p printers _ (eligible_printers-Fits printers))
  ]

  -- A matching printer's recommendation is among the eligible ones.
  eligible_printers-All :
      (P : PrinterRecommendation → Type 0) (printers : List PrinterProfile)
      → All P (eligible_printers specs job_pages queued_jobs printers)
      → All
          (λ p. P (recommendation specs job_pages queued_jobs p))
          (keep (λ p. printer_matches_specs p specs) printers)
  unfolding eligible_printers
  eligible_printers-All P [] h = tt
  eligible_printers-All P (p ∷ printers) h = elim (Bool-cases (printer_matches_specs p specs)) [
    | inl e ↦
        let split : P (recommendation specs job_pages queued_jobs p)
            × All P (eligible_printers specs job_pages queued_jobs printers) =
          rw e at h in
        rw e (split.0, eligible_printers-All P printers split.1)
    | inr e ↦ rw e (eligible_printers-All P printers (rw e at h))
  ]

  head-All :
      (P : PrinterRecommendation → Type 0) (rs : List PrinterRecommendation)
      (r : PrinterRecommendation)
      → All P rs
      → head? rs ≡ some r
      → P r
  head-All P [] r ps h = cc
  head-All P (x ∷ rs) r (p, ps) h = subst P (some-injective _ _ h) p

  -- A recommended printer is one of the given printers that is online and able to make the job, and
  -- the job would finish on it no later than on any other such printer; among equal waiting times
  -- its queue is a shortest one.
  pub rank_printers-recommended :
      (printers : List PrinterProfile) (r : PrinterRecommendation)
      → (rank_printers printers specs job_pages queued_jobs).recommended ≡ some r
      → Fits printers r
        × All
            (λ p. ranks_before r (recommendation specs job_pages queued_jobs p) ≡ true)
            (keep (λ p. printer_matches_specs p specs) printers)
  unfolding rank_printers
  rank_printers-recommended printers r h =
      let eligible = eligible_printers specs job_pages queued_jobs printers in
      (
        head-All (Fits printers) (sort ranks_before eligible) r
            (sort-All ranks_before (Fits printers) eligible (eligible_printers-Fits printers)) h,
        eligible_printers-All (λ x. ranks_before r x ≡ true) printers
            (sort-head ranks_before ranks_before_total ranks_before_trans eligible r h),
      )

  eligible_printers-nil :
      (printers : List PrinterProfile)
      → (eligible_printers specs job_pages queued_jobs printers ≡ [])
        ↔ (any (λ p. printer_matches_specs p specs) printers ≡ false)
  unfolding eligible_printers
  eligible_printers-nil [] = (λ _. refl, λ _. refl)
  eligible_printers-nil (p ∷ printers) = ground (arith, eligible_printers-nil printers)

  -- No printer is recommended exactly when none of them is online and able to make the job.
  pub rank_printers-none :
      (printers : List PrinterProfile)
      → ((rank_printers printers specs job_pages queued_jobs).recommended ≡ none)
        ↔ (any (λ p. printer_matches_specs p specs) printers ≡ false)
  unfolding rank_printers
  rank_printers-none printers =
      let eligible = eligible_printers specs job_pages queued_jobs printers in
      let b = eligible_printers-nil printers in
      (λ h. b.0 (sort-nil ranks_before eligible h), λ h. rw (b.1 h, sort))
