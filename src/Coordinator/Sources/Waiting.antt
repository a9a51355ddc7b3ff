-- ===== src/Coordinator/Sources/Waiting.antt =====
-- coordinator/coordinator.go: how long `AwaitPendingSource` waits.
use featureform.Common.{
  ℕ, zero, suc, ◌+◌, ◌-◌, ◌*◌, ◌≡◌, ◌≢◌, ◌≤◌, ◌<◌, ◌⊎◌, inl, inr, refl, subst, true, Result, ok,
  err, Result-cases, ltb, Bool-cases, arith,
}
use featureform.Metadata.Types.{NameVariant, Status, ready, failed, no_status, created, pending}
use featureform.Metadata.Messages.{SourceVariant}
use featureform.Metadata.Lookup.{ResourceLookup}
use featureform.Metadata.Client.{status_in, get_source_variant}
use featureform.Coordinator.Services.{
  Error, metadata, source_failed, waited_too_long, still_waiting, Services,
}
use featureform.Coordinator.Sources.{is_ready, is_failed, await_loop, await_pending_source}

-- An answer of a wait that has ended: a source that is ready, or an error of the program's.
pub IsAnswer : Result Error SourceVariant → Type 0
IsAnswer r =
    ((source : SourceVariant) × (r ≡ ok source) × (status_in source.status ≡ ready))
    ⊎ ((e : Error) × (r ≡ err e) × (e ≢ still_waiting))

is_ready→≡ : (s : Status) → is_ready s ≡ true → s ≡ ready
is_ready→≡ ready h = refl
is_ready→≡ no_status h = absurd (ground (arith, h))
is_ready→≡ created h = absurd (ground (arith, h))
is_ready→≡ pending h = absurd (ground (arith, h))
is_ready→≡ failed h = absurd (ground (arith, h))

answers_error : (e : Error) → (e ≢ still_waiting) → IsAnswer (err e)
unfolding IsAnswer
answers_error e differs = inr (e, refl, differs)

answers_ready :
    (source : SourceVariant) → is_ready (status_in source.status) ≡ true → IsAnswer (ok source)
unfolding IsAnswer
answers_ready source h = inl (source, refl, is_ready→≡ (status_in source.status) h)

module _ {W H R : Type 0} (L : ResourceLookup W) (S : Services W H R)
    (second : (w : W) → S.now w + 1000000000 ≤ S.now (S.sleep w)) where
  -- One round of the loop: an answer, or the next round.
  round :
      (fuel timeout start elapsed : ℕ) (nv : NameVariant) (w : W)
      → (elapsed < timeout * 1000000000
          → IsAnswer (await_loop L S fuel timeout start (S.now w - start) nv (S.sleep w)).0)
      → IsAnswer (await_loop L S (suc fuel) timeout start elapsed nv w).0
  unfolding await_loop
  round fuel timeout start elapsed nv w later =
      elim (Bool-cases (ltb elapsed (timeout * 1000000000))) [
        | inr over ↦ rw over (answers_error waited_too_long (λ p. absurd (ground (arith, p))))
        | inl time ↦ elim (Result-cases (get_source_variant L nv w)) [
          | inr (e, lost) ↦
              rw (time, lost) (answers_error (metadata e) (λ p. absurd (ground (arith, p))))
          | inl (source, found) ↦ elim (Bool-cases (is_failed (status_in source.status))) [
            | inl bad ↦
                rw (time, found, bad)
                  (answers_error source_failed (λ p. absurd (ground (arith, p))))
            | inr fine ↦ elim (Bool-cases (is_ready (status_in source.status))) [
              | inl good ↦ rw (time, found, fine, good) (answers_ready source good)
              | inr waits ↦ rw (time, found, fine, waits) (later (ground (arith, time)))
            ]
          ]
        ]
      ]

  await_loop-ends :
      (fuel timeout start elapsed : ℕ) (nv : NameVariant) (w : W)
      → start + elapsed + 1000000000 ≤ S.now w
      → (timeout + 1) * 1000000000 ≤ elapsed + fuel * 1000000000
      → 1 ≤ fuel
      → IsAnswer (await_loop L S fuel timeout start elapsed nv w).0
  await_loop-ends zero timeout start elapsed nv w clock enough left = absurd (omega (arith, left))
  await_loop-ends (suc fuel) timeout start elapsed nv w clock enough left =
      round fuel timeout start elapsed nv w (λ time.
        let on : elapsed + 1000000000 ≤ S.now w - start = omega (arith, clock) in
        await_loop-ends fuel timeout start (S.now w - start) nv (S.sleep w)
          (omega (arith, clock, second w)) (omega (arith, enough, on))
          (omega (arith, enough, time)))

  -- Where a sleep takes a second of the clock, as many polls as the timeout has seconds and two more
  -- are enough for `AwaitPendingSource` to end, whatever else happens meanwhile: with a source that is
  -- READY, or with an error.
  pub await_pending_source-ends :
      (timeout : ℕ) (nv : NameVariant) (w : W)
      → IsAnswer (await_pending_source L S (timeout + 2) timeout nv w).0
  unfolding await_pending_source
  await_pending_source-ends timeout nv w =
      subst (λ fuel. IsAnswer (await_loop L S fuel timeout (S.now w) 0 nv w).0)
        (fuel_enough timeout)
        (round (suc timeout) timeout (S.now w) 0 nv w (λ time.
          await_loop-ends (suc timeout) timeout (S.now w) (S.now w - S.now w) nv (S.sleep w)
            (omega (arith, second w)) (omega arith) (omega arith)))
    where
      fuel_enough : (n : ℕ) → suc (suc n) ≡ n + 2
      fuel_enough n = omega arith
