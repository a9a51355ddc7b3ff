-- ===== src/Metadata/Server/Loop.antt =====
-- One round of the loop in `propogateChange`, where nothing fails.
use featureform.Common.{
  ◌≡◌, refl, ◌∙◌, none, some, List, ◌∷◌, Result, ok, err, Action, continue, ◌>=>◌, find, put,
}
use featureform.Metadata.Types.{Error, id_keys}
use featureform.Metadata.Resource.{Resource, resource_id, notify}
use featureform.Metadata.Lookup.{ResourceLookup}
use featureform.Metadata.Server.{Visited, after_set, after_notify, notify_loop}

module _ {S : Type 0} (L : ResourceLookup S)
    (recur : Resource → Action Error (S × Visited) (Unit {0})) (new_res : Resource) where
  after_set-ok :
      (p : Result Error (Unit {0}) × S) (v : Visited)
      (next rest : Action Error (S × Visited) (Unit {0}))
      → p.0 ≡ ok tt
      → after_set L p v next rest ≡ (next >=> λ _. rest) (p.1, v)
  unfolding after_set
  after_set-ok (ok u, s) v next rest h = refl
  after_set-ok (err e, s) v next rest h = cc

  then-ok :
      (p : Result Error (Unit {0}) × (S × Visited)) (rest : Action Error (S × Visited) (Unit {0}))
      → p.0 ≡ ok tt
      → continue p.0 (λ _. rest) p.1 ≡ rest p.1
  then-ok (ok u, st) rest h = refl
  then-ok (err e, st) rest h = cc

  -- A resource that was visited is passed over.
  pub notify_loop-visited :
      (d : Resource) (rest : List Resource) (s : S) (v : Visited)
      → find v (resource_id d) ≡ some tt
      → notify_loop L recur new_res (d ∷ rest) (s, v) ≡ notify_loop L recur new_res rest (s, v)
  unfolding notify_loop
  notify_loop-visited d rest s v h = rw (h, notify_loop)

  -- Another is notified, written back, and followed to its own dependencies.
  pub notify_loop-fresh :
      (d d' : Resource) (rest : List Resource) (s : S) (v : Visited)
      → find v (resource_id d) ≡ none
      → notify (λ ids. L.submap ids s) d new_res ≡ ok d'
      → (L.set (resource_id d') d' s).0 ≡ ok tt
      → (recur d' ((L.set (resource_id d') d' s).1, put v (resource_id d) tt)).0 ≡ ok tt
      → notify_loop L recur new_res (d ∷ rest) (s, v)
        ≡ notify_loop L recur new_res rest
            (recur d' ((L.set (resource_id d') d' s).1, put v (resource_id d) tt)).1
  unfolding notify_loop
  notify_loop-fresh d d' rest s v absent told written followed =
      rw (absent, notify_loop)
        (rw (told, after_notify)
          (after_set-ok (L.set (resource_id d') d' s) (put v (resource_id d) tt) (recur d')
              (notify_loop L recur new_res rest) written
            ∙ then-ok (recur d' ((L.set (resource_id d') d' s).1, put v (resource_id d) tt))
                (notify_loop L recur new_res rest) followed))
