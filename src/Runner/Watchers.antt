-- ===== src/Runner/Watchers.antt =====
-- runner/copy.go and runner/materialize.go: the watchers of runners. A wait that blocks is none.
use featureform.Common.{
  ℕ, suc, ◌≡◌, ◌↔◌, Bool, true, false, ◌&&◌, Option, none, some, List, [], ◌∷◌, All, if◌then◌else◌,
  arith, length, ◌≤◌,
}

-- `type ResultSync struct` and `type SyncWatcher struct`, and whether the channel is closed. `E` are
-- errors, and no error is `none`.
pub record SyncWatcher (E : Type 0) : Type 0 where
  pub result_err : Option E
  pub result_done : Bool
  pub channel_closed : Bool

module _ {E : Type 0} where
  -- A watcher as `Run` makes it.
  abbrev pub new_watcher : SyncWatcher E
  new_watcher = record { result_err = none; result_done = false; channel_closed = false }

  -- `DoneWithError`
  unfoldable pub done_with_error : Option E → SyncWatcher E → SyncWatcher E
  done_with_error e w = record w { result_err = e; result_done = true }

  -- `EndWatch`
  unfoldable pub end_watch : Option E → SyncWatcher E → SyncWatcher E
  unfolding done_with_error
  end_watch e w = record (done_with_error e w) { channel_closed = true }

  -- `Complete` and `Err` of a SyncWatcher
  abbrev pub complete : SyncWatcher E → Bool
  complete w = w.result_done

  abbrev pub err_of : SyncWatcher E → Option E
  err_of w = w.result_err

  -- `Wait`, which blocks until the channel is closed.
  unfoldable pub wait : SyncWatcher E → Option (Option E)
  wait w = if w.channel_closed then some w.result_err else none

  -- `WatcherMultiplex.Complete`
  unfoldable pub multiplex_complete : List (SyncWatcher E) → Bool
  multiplex_complete [] = true
  multiplex_complete (w ∷ ws) = complete w && multiplex_complete ws

  -- The count of `WatcherMultiplex.String`
  unfoldable pub complete_count : List (SyncWatcher E) → ℕ
  complete_count [] = 0
  complete_count (w ∷ ws) = let n = complete_count ws in if complete w then suc n else n

  -- `WatcherMultiplex.Wait`: the first error ends it.
  unfoldable pub multiplex_wait : List (SyncWatcher E) → Option (Option E)
  unfolding wait
  multiplex_wait [] = some none
  multiplex_wait (w ∷ ws) =
      let rest = multiplex_wait ws in
      elim (wait w) [ none ↦ none | some (some e) ↦ some (some e) | some none ↦ rest ]

  -- `WatcherMultiplex.Err`
  unfoldable pub multiplex_err : List (SyncWatcher E) → Option E
  multiplex_err [] = none
  multiplex_err (w ∷ ws) =
      let rest = multiplex_err ws in elim (err_of w) [ some e ↦ some e | none ↦ rest ]

  -- The states of a watcher: as it was made, or ended with a result.
  pub data IsWatcher (w : SyncWatcher E) : Type 0 where
    is_new : w ≡ new_watcher → IsWatcher w
    is_ended : (e : Option E) → w ≡ end_watch e new_watcher → IsWatcher w

  -- Of watchers that are each as a runner made them or have ended since: `Wait` on all returns no error exactly if
  -- all are complete and none has an error, which is what `Complete` and `Err` tell. `Complete` holds
  -- exactly if the count of complete ones is the count of all.
  pub multiplex_wait_iff :
      (ws : List (SyncWatcher E))
      → All IsWatcher ws
      → ((multiplex_wait ws ≡ some none)
          ↔ ((multiplex_complete ws ≡ true) × (multiplex_err ws ≡ none)))
        × ((multiplex_complete ws ≡ true) ↔ (complete_count ws ≡ length ws))
        × (complete_count ws ≤ length ws)
  unfolding multiplex_wait multiplex_complete multiplex_err complete_count wait end_watch
      done_with_error
  multiplex_wait_iff [] h = ground arith
  multiplex_wait_iff (w ∷ ws) (is_new e, h) = rw e (ground (arith, multiplex_wait_iff ws h))
  multiplex_wait_iff (w ∷ ws) (is_ended none e, h) = rw e (ground (arith, multiplex_wait_iff ws h))
  multiplex_wait_iff (w ∷ ws) (is_ended (some x) e, h) =
      rw e (ground (arith, multiplex_wait_iff ws h))
