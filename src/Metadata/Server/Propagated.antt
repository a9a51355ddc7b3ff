-- ===== src/Metadata/Server/Propagated.antt =====
-- What `propogateChange` leaves behind.
use featureform.Common.{◌≡◌, ◌↔◌, ◌⊎◌, inl, inr, refl, List, [], ok, find, In}
use featureform.Metadata.Types.{ResourceId, id_keys}
use featureform.Metadata.Resource.{Resource}
use featureform.Metadata.Lookup.{ResourceLookup, IsReliable}
use featureform.Metadata.Server.{Visited, propagate_from, propagate_change}
use featureform.Metadata.Server.Graph.{
  Snapshot, DependsOn, IsWellKeyed, IsBacked, IsIntact, Reach, direct, through, rank-lt-5,
}
use featureform.Metadata.Server.Propagation.{told, Seen, Finished, propagate_from-Done}

Seen-nothing : (k : ResourceId) → ¬ Seen [] k
unfolding find
Seen-nothing k h = cc

Reach-Seen :
    {g : Snapshot} (v : Visited)
    → ((k : ResourceId) → Seen v k → Finished g v k)
    → (root : Resource) (k : ResourceId) → Reach g root k
    → ((j : ResourceId) → DependsOn root j → Seen v j)
    → Seen v k
Reach-Seen v closed root k (direct h) covers = covers k h
Reach-Seen v closed root k (through {j = j} r h e more) covers =
    Reach-Seen v closed r k more (closed j (covers j h) r e)

-- What a store that held `g` holds after the resources behind `new_res` were told of it: `visited`
-- marks those that `new_res` depends on, directly or through others.
pub record IsTold (new_res : Resource) (g after : Snapshot) : Type 0 where
  pub visited : Visited
  pub visited_iff : (k : ResourceId) → Seen visited k ↔ Reach g new_res k
  pub each : (k : ResourceId) → after k ≡ told new_res (find visited k) (g k)

module _ {S : Type 0} (L : ResourceLookup S) (view : S → Snapshot) (rel : IsReliable L view)
    (order : List Resource → List Resource)
    (order_iff : (r : Resource) (rs : List Resource) → In r (order rs) ↔ In r rs) where
  -- Over a reliable lookup that is well keyed and in which no reference dangles, whatever the order
  -- in which Go ranges over maps, `propogateChange` of a resource whose dependencies stand in the
  -- store ends without error. Every resource that the new one depends on, directly or through others,
  -- has then been told of it exactly once, and all other resources are as they were.
  pub propagate_change_lem :
      (new_res : Resource) (s : S)
      → IsWellKeyed (view s)
      → IsIntact (view s)
      → IsBacked (view s) new_res
      → ((propagate_change L order new_res s).0 ≡ ok tt)
        × IsTold new_res (view s) (view (propagate_change L order new_res s).1)
  unfolding propagate_change
  propagate_change_lem new_res s keyed intact backed =
      let out = propagate_from L order 5 new_res new_res (s, []) in
      let done =
        propagate_from-Done L view rel new_res (view s) keyed intact backed order order_iff 5
          new_res backed (rank-lt-5 _) s [] (unfold find in λ k. refl) in
      (
        done.returns,
        record {
          visited = out.1.1;
          visited_iff = λ k. (
            λ seen. only_later k (done.reached k seen),
            λ path.
                Reach-Seen out.1.1 (λ j h. only_later j (done.closed j h)) new_res k path
                  done.covers,
          );
          each = done.agrees;
        },
      )
    where
      only_later : {A : Type 0} (j : ResourceId) → Seen [] j ⊎ A → A
      only_later j (inl h) = absurd (Seen-nothing j h)
      only_later j (inr a) = a
