-- ===== src/Metadata/Server/Propagation.antt =====
-- `propogateChange` over a reliable lookup whose resources are well keyed and intact: it ends, it
-- succeeds, and it tells exactly the resources on which the new one depends, each once.
use featureform.Common.{
  ℕ, zero, suc, ◌<◌, ◌≡◌, ◌≢◌, ◌↔◌, ◌⊎◌, inl, inr, refl, sym, ◌∙◌, ap, subst, Option, none, some,
  List, [], ◌∷◌, arith, Result, ok, Action, Map, find, put, find-put, find-In, In, All, In-All,
  Option-cases, Bool-cases,
}
use featureform.Metadata.Types.{ResourceId, Error, id_keys, id_eq, id_eq_iff}
use featureform.Metadata.Resource.{Resource, resource_id, dependency_ids, notify}
use featureform.Metadata.Lookup.{ResourceLookup, IsReliable}
use featureform.Metadata.Lookup.Local.{list}
use featureform.Metadata.Server.{Visited, notify_loop, propagate_from}
use featureform.Metadata.Server.Graph.{
  Snapshot, DependsOn, IsWellKeyed, IsBacked, IsIntact, Reach, direct, through, rank,
  DependsOn-rank,
}
use featureform.Metadata.Server.Notified.{
  notified, resource_id-notified, dependency_ids-notified, notify-eq-notified,
}
use featureform.Metadata.Server.Fetch.{
  Holds, In-list, list-In, dependencies-Holds, is_direct_dependency_lem,
}
use featureform.Metadata.Server.Loop.{notify_loop-visited, notify_loop-fresh}

-- What stands in the store of a resource that was, or was not, visited.
abbrev pub told : Resource → Option (Unit {0}) → Option Resource → Option Resource
told new_res none o = o
told new_res (some u) none = none
told new_res (some u) (some r) = some (notified new_res r)

pub told_eq_none :
    (new_res : Resource) (u : Option (Unit {0})) (o : Option Resource)
    → told new_res u o ≡ none
    → o ≡ none
told_eq_none new_res none o h = h
told_eq_none new_res (some u) none h = refl
told_eq_none new_res (some u) (some r) h = cc

pub told-some :
    (new_res d : Resource) (u : Option (Unit {0})) (o : Option Resource)
    → told new_res u o ≡ some d
    → (r : Resource) × (o ≡ some r)
      × (resource_id d ≡ resource_id r)
      × (dependency_ids d ≡ dependency_ids r)
told-some new_res d none o h = (d, h, refl, refl)
told-some new_res d (some u) none h = cc
told-some new_res d (some u) (some r) h = (
  r,
  refl,
  ap resource_id (some_injective (sym h)) ∙ resource_id-notified new_res r,
  ap dependency_ids (some_injective (sym h)) ∙ dependency_ids-notified new_res r,
)
  where
    some_injective : {a b : Resource} → some a ≡ some b → a ≡ b
    some_injective e = cc

abbrev pub Seen : Visited → ResourceId → Type 0
Seen v k = find v k ≡ some tt

pub Seen-or_not : (v : Visited) (k : ResourceId) → Seen v k ⊎ (find v k ≡ none)
Seen-or_not v k = elim (Option-cases (find v k)) [ inl e ↦ inr e | inr (u, e) ↦ inl e ]

Seen-put : (v : Visited) (j k : ResourceId) → Seen v k → Seen (put v j tt) k
Seen-put v j k h = ground (arith, find-put v j tt k)

Seen-put_self : (v : Visited) (k : ResourceId) → Seen (put v k tt) k
Seen-put_self v k = ground (arith, find-put v k tt k, id_eq_iff k k)

Seen-put_cases : (v : Visited) (j k : ResourceId) → Seen (put v j tt) k → (j ≡ k) ⊎ Seen v k
Seen-put_cases v j k h = elim (Bool-cases (id_eq j k)) [
  | inl same ↦ inl ((id_eq_iff j k).0 same)
  | inr other ↦ inr (ground (arith, find-put v j tt k, other))
]

-- Every dependency of the resource under `k` was visited.
abbrev pub Finished : Snapshot → Visited → ResourceId → Type 0
Finished g v k = (r : Resource) → g k ≡ some r → (j : ResourceId) → DependsOn r j → Seen v j

module _ {S : Type 0} (L : ResourceLookup S) (view : S → Snapshot) (rel : IsReliable L view)
    (new_res : Resource) (g : Snapshot) (keyed : IsWellKeyed g) (intact : IsIntact g)
    (new_backed : IsBacked g new_res) where
  -- The store holds the snapshot, with the visited resources told of the new one.
  abbrev pub Agrees : S × Visited → Type 0
  Agrees (s, v) = (k : ResourceId) → view s k ≡ told new_res (find v k) (g k)

  -- What a call below `root` does that set out from `v` to visit `goal`.
  pub record Done (root : Resource) (goal : ResourceId → Type 0) (v : Visited)
      (out : Result Error (Unit {0}) × (S × Visited)) : Type 0 where
    pub returns : out.0 ≡ ok tt
    pub agrees : Agrees out.1
    pub grows : (k : ResourceId) → Seen v k → Seen out.1.1 k
    pub covers : (k : ResourceId) → goal k → Seen out.1.1 k
    pub closed : (k : ResourceId) → Seen out.1.1 k → Seen v k ⊎ Finished g out.1.1 k
    pub reached : (k : ResourceId) → Seen out.1.1 k → Seen v k ⊎ Reach g root k

  still-IsBacked :
      (r : Resource) (s : S) (v : Visited) → Agrees (s, v) → IsBacked g r → IsBacked (view s) r
  still-IsBacked r s v a (ids, e, present) = (ids, e, still ids present)
    where
      still : (ids : List ResourceId) → All (λ k. g k ≢ none) ids → All (λ k. view s k ≢ none) ids
      still [] h = tt
      still (k ∷ ks) h =
          (λ gone. h.0 (told_eq_none new_res (find v k) (g k) (sym (a k) ∙ gone)), still ks h.1)

  tells :
      (d : Resource) (s : S) (v : Visited)
      → Agrees (s, v)
      → notify (λ ids. L.submap ids s) d new_res ≡ ok (notified new_res d)
  tells d s v a =
      notify-eq-notified (λ ids. L.submap ids s) new_res
        (is_direct_dependency_lem L view rel s new_res (still-IsBacked new_res s v a new_backed)) d

  -- Writing back a notified resource and marking it keep the agreement.
  Agrees-tell :
      (d : Resource) (s : S) (v : Visited)
      → Agrees (s, v)
      → g (resource_id d) ≡ some d
      → Agrees (
        (L.set (resource_id (notified new_res d)) (notified new_res d) s).1,
        put v (resource_id d) tt,
      )
  Agrees-tell d s v a e k =
      let same_id = resource_id-notified new_res d in
      let after = rel.view-set (resource_id (notified new_res d)) (notified new_res d) s k in
      elim (Bool-cases (id_eq (resource_id d) k)) [
        | inl same ↦
            let there = (id_eq_iff (resource_id d) k).0 same in
            ground (arith, after, same_id, find-put v (resource_id d) tt k, same, there, e)
        | inr other ↦ ground (arith, after, same_id, find-put v (resource_id d) tt k, other, a k)
      ]

  -- A resource that the loop may meet: a dependency of `root`, as it stood when it was fetched.
  abbrev Candidate : Resource → Visited → Resource → Type 0
  Candidate root v d =
      DependsOn root (resource_id d) × (find v (resource_id d) ≡ none → g (resource_id d) ≡ some d)

  -- The call of the closure on a resource of rank below `bound`.
  abbrev pub Recurs : (Resource → Action Error (S × Visited) (Unit {0})) → ℕ → Type 0
  Recurs recur bound =
      (r : Resource)
      → IsBacked g r
      → rank (resource_id r).type < bound
      → (s : S) (v : Visited) → Agrees (s, v)
      → Done r (DependsOn r) v (recur r (s, v))

  -- Visiting only adds, so what was a candidate stays one.
  Candidate-grows :
      (root : Resource) (v w : Visited) (d : Resource)
      → ((k : ResourceId) → Seen v k → Seen w k)
      → Candidate root v d
      → Candidate root w d
  Candidate-grows root v w d grows (named, fetched) = (
    named,
    λ absent. elim (Seen-or_not v (resource_id d)) [
      | inl seen ↦ cc (grows (resource_id d) seen, absent)
      | inr unseen ↦ fetched unseen
    ],
  )

  -- The rest of the loop after one more resource `d` was told and followed.
  module _ (root d : Resource) (rest : List Resource) (v : Visited) (s' : S)
      (recur : Resource → Action Error (S × Visited) (Unit {0}))
      (named : DependsOn root (resource_id d)) (found : g (resource_id d) ≡ some d)
      (followed : Done
        (notified new_res d)
        (DependsOn (notified new_res d))
        (put v (resource_id d) tt)
        (recur (notified new_res d) (s', put v (resource_id d) tt)))
      (out : Result Error (Unit {0}) × (S × Visited))
      (later : Done root
        (λ k. (x : Resource) × In x rest × (resource_id x ≡ k))
        (recur (notified new_res d) (s', put v (resource_id d) tt)).1.1
        out) where
    same_dependency : (k : ResourceId) → DependsOn (notified new_res d) k → DependsOn d k
    same_dependency k (ids, e, i) = (ids, sym (dependency_ids-notified new_res d) ∙ e, i)

    dependency_same : (k : ResourceId) → DependsOn d k → DependsOn (notified new_res d) k
    dependency_same k (ids, e, i) = (ids, dependency_ids-notified new_res d ∙ e, i)

    Reach-d : (k : ResourceId) → Reach g (notified new_res d) k → Reach g root k
    Reach-d k (direct h) = through d named found (direct (same_dependency k h))
    Reach-d k (through r h e more) = through d named found (through r (same_dependency _ h) e more)

    Finished-d : Finished g out.1.1 (resource_id d)
    Finished-d r e j h =
        later.grows j (followed.covers j (dependency_same j (subst_dependency r e j h)))
      where
        subst_dependency :
            (r : Resource)
            → g (resource_id d) ≡ some r
            → (j : ResourceId) → DependsOn r j
            → DependsOn d j
        subst_dependency r e j (ids, f, i) = (ids, ground (arith, e, found, f), i)

    extend_Done : Done root (λ k. (x : Resource) × In x (d ∷ rest) × (resource_id x ≡ k)) v out
    extend_Done = record {
      returns = later.returns;
      agrees = later.agrees;
      grows = λ k seen. later.grows k (followed.grows k (Seen-put v (resource_id d) k seen));
      covers = λ k (x, i, e). elim i [
        | inl same ↦ subst (Seen out.1.1) (ap resource_id same ∙ e) (
            later.grows (resource_id d)
              (followed.grows (resource_id d) (Seen-put_self v (resource_id d))))
        | inr older ↦ later.covers k (x, older, e)
      ];
      closed = λ k seen. elim (later.closed k seen) [
        | inr finished ↦ inr finished
        | inl before ↦ elim (followed.closed k before) [
          | inr finished ↦ inr (λ r e j h. later.grows j (finished r e j h))
          | inl earlier ↦ elim (Seen-put_cases v (resource_id d) k earlier) [
            | inl same ↦ inr (subst (Finished g out.1.1) same Finished-d)
            | inr first ↦ inl first
          ]
        ]
      ];
      reached = λ k seen. elim (later.reached k seen) [
        | inr path ↦ inr path
        | inl before ↦ elim (followed.reached k before) [
          | inr path ↦ inr (Reach-d k path)
          | inl earlier ↦ elim (Seen-put_cases v (resource_id d) k earlier) [
            | inl same ↦ inr (direct (subst (DependsOn root) same named))
            | inr first ↦ inl first
          ]
        ]
      ];
    }

  abbrev Goal : List Resource → ResourceId → Type 0
  Goal rs k = (x : Resource) × In x rs × (resource_id x ≡ k)

  skip_Done :
      (root d : Resource) (rest : List Resource) (v : Visited)
      (out : Result Error (Unit {0}) × (S × Visited))
      → Seen v (resource_id d)
      → Done root (Goal rest) v out
      → Done root (Goal (d ∷ rest)) v out
  skip_Done root d rest v out seen later = record {
    returns = later.returns;
    agrees = later.agrees;
    grows = later.grows;
    covers = λ k (x, i, e). elim i [
      | inl same ↦ subst (Seen out.1.1) (ap resource_id same ∙ e) (later.grows (resource_id d) seen)
      | inr older ↦ later.covers k (x, older, e)
    ];
    closed = later.closed;
    reached = later.reached;
  }

  loop_Done-nil :
      (recur : Resource → Action Error (S × Visited) (Unit {0})) (root : Resource) (s : S)
      (v : Visited)
      → Agrees (s, v)
      → Done root (Goal []) v (notify_loop L recur new_res [] (s, v))
  unfolding notify_loop
  loop_Done-nil recur root s v a = record {
    returns = refl;
    agrees = a;
    grows = λ k seen. seen;
    covers = λ k (x, i, e). absurd i;
    closed = λ k seen. inl seen;
    reached = λ k seen. inl seen;
  }

  notified-IsBacked : (d : Resource) → g (resource_id d) ≡ some d → IsBacked g (notified new_res d)
  notified-IsBacked d found =
      let (ids, e, present) = intact (resource_id d) d found in
      (ids, dependency_ids-notified new_res d ∙ e, present)

  All-Candidate-grows :
      (root : Resource) (v w : Visited) (rs : List Resource)
      → ((k : ResourceId) → Seen v k → Seen w k)
      → All (Candidate root v) rs
      → All (Candidate root w) rs
  All-Candidate-grows root v w [] grows h = tt
  All-Candidate-grows root v w (r ∷ rs) grows h =
      (Candidate-grows root v w r grows h.0, All-Candidate-grows root v w rs grows h.1)

  loop_Done :
      (recur : Resource → Action Error (S × Visited) (Unit {0})) (bound : ℕ)
      → Recurs recur bound
      → (root : Resource) → rank (resource_id root).type < suc bound
      → (rs : List Resource) (s : S) (v : Visited) → All (Candidate root v) rs
      → Agrees (s, v)
      → Done root (Goal rs) v (notify_loop L recur new_res rs (s, v))
  loop_Done recur bound ih root low [] s v each a = loop_Done-nil recur root s v a
  loop_Done recur bound ih root low (d ∷ rest) s v each a = elim (Seen-or_not v (resource_id d)) [
    | inl seen ↦
        subst (Done root (Goal (d ∷ rest)) v)
          (sym (notify_loop-visited L recur new_res d rest s v seen))
          (skip_Done root d rest v _ seen (loop_Done recur bound ih root low rest s v each.1 a))
    | inr fresh ↦
        let d' = notified new_res d in
        let v' = put v (resource_id d) tt in
        let s' = (L.set (resource_id d') d' s).1 in
        let found = each.0.1 fresh in
        let lower : rank (resource_id d').type < bound =
          rw resource_id-notified (omega (arith, DependsOn-rank root (resource_id d) each.0.0)) in
        let followed = ih d' (notified-IsBacked d found) lower s' v' (Agrees-tell d s v a found) in
        let st = (recur d' (s', v')).1 in
        let later =
          loop_Done recur bound ih root low rest st.0 st.1
            (All-Candidate-grows root v st.1 rest
              (λ k seen. followed.grows k (Seen-put v (resource_id d) k seen)) each.1)
            followed.agrees in
        subst (Done root (Goal (d ∷ rest)) v)
          (sym (
            notify_loop-fresh L recur new_res d d' rest s v fresh (tells d s v a)
              (rel.set_ok (resource_id d') d' s) followed.returns))
          (extend_Done root d rest v s' recur each.0.0 found followed _ later)
  ]

  stands_under_own_id :
      (s : S) (v : Visited) (k : ResourceId) (d : Resource)
      → Agrees (s, v)
      → view s k ≡ some d
      → resource_id d ≡ k
  stands_under_own_id s v k d a h =
      let (r, e, same, _) = told-some new_res d (find v k) (g k) (sym (a k) ∙ h) in
      same ∙ keyed k r e

  weaken_Done :
      (root : Resource) (goal goal' : ResourceId → Type 0) (v : Visited)
      (out : Result Error (Unit {0}) × (S × Visited))
      → ((k : ResourceId) → goal' k → goal k)
      → Done root goal v out
      → Done root goal' v out
  weaken_Done root goal goal' v out w h = record {
    returns = h.returns;
    agrees = h.agrees;
    grows = h.grows;
    covers = λ k x. h.covers k (w k x);
    closed = h.closed;
    reached = h.reached;
  }

  module _ (order : List Resource → List Resource)
      (order_iff : (r : Resource) (rs : List Resource) → In r (order rs) ↔ In r rs) where
    candidates :
        (root : Resource) (s : S) (v : Visited) (m : Map ResourceId Resource)
        → Agrees (s, v)
        → Holds (view s) root m
        → (d : Resource) → In d (order (list m))
        → Candidate root v d
    candidates root s v m a holds d i =
        let (k, stands) = list-In d m ((order_iff d (list m)).0 i) in
        let (named, found) = holds.sound k d stands in
        let same = stands_under_own_id s v k d a found in
        (
          subst (DependsOn root) (sym same) named,
          λ absent.
              cc (
                a (resource_id d),
                found,
                same,
                ap (λ u. told new_res u (g (resource_id d))) absent,
              ),
        )

    named_by_list :
        (root : Resource) (s : S) (v : Visited) (m : Map ResourceId Resource)
        → Agrees (s, v)
        → Holds (view s) root m
        → (k : ResourceId) → DependsOn root k
        → Goal (order (list m)) k
    named_by_list root s v m a holds k named =
        let (d, found) = holds.complete k named in
        let stands = find-In m k d found in
        (
          d,
          (order_iff d (list m)).1 (In-list k d m stands),
          stands_under_own_id s v k d a (holds.sound k d stands).1,
        )

    -- With more fuel than its rank, a call on any backed resource does all that it should.
    pub propagate_from-Done : (fuel : ℕ) → Recurs (propagate_from L order fuel new_res) fuel
    unfolding propagate_from
    propagate_from-Done zero r backed low s v a = absurd (omega arith)
    propagate_from-Done (suc fuel) r backed low s v a =
        let (m, fetched, holds) =
          dependencies-Holds L view rel s r (still-IsBacked r s v a backed) in
        rw (fetched, propagate_from)
          (weaken_Done r (Goal (order (list m))) (DependsOn r) v _ (named_by_list r s v m a holds) (
            loop_Done (propagate_from L order fuel new_res) fuel (propagate_from-Done fuel) r low
              (order (list m)) s v (In-All (order (list m)) (candidates r s v m a holds)) a))
