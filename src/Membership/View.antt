-- ===== src/Membership/View.antt =====
-- The ring and the view of the cluster: what the failure detector and the heartbeats make of the
-- peers, and that `Router` has the peers that are alive.
use mathlib.Core.List.{lookup}
use lethe.Base.{
  ℕ, ◌-◌, ◌≡◌, ◌≢◌, refl, ap, ◌∙◌, Bool, true, false, not, ◌&&◌, List, [], ◌∷◌, ltb, Option, none,
  some, arith, Bool-cases, inl, inr, if_pos, if_neg,
}
use lethe.Base.Assoc.{IsMap, lookup-cons_self}
use lethe.Types.{Bytes, bytes_dec}
use lethe.Router.{Router, set_peers, contains, is_nil}
use lethe.Membership.{
  Membership, Cluster, PeerInfo, emplace, alive_ids, update, heard, is_dead, note_replies, judge,
  judge_all, newly_dead, on_membership_change, send_heartbeats, evaluate_suspicions,
  heartbeat_round, on_heartbeat, heartbeat_targets, unknown_peer,
}

-- The ring is over this node and the peers that are alive.
abbrev pub InSync : {R : Type 0} → Cluster R → Type 0
InSync c = c.router.peers ≡ c.membership.local_node_id ∷ alive_ids c.membership.peers

abbrev pub is_alive : Option PeerInfo → Bool
is_alive (some info) = info.alive
is_alive none = false

contains-alive_ids :
    (id : Bytes) (l : List (Bytes × PeerInfo))
    → IsMap bytes_dec l
    → contains id (alive_ids l) ≡ is_alive (lookup bytes_dec id l)
unfolding contains alive_ids lookup
contains-alive_ids id [] h = refl
contains-alive_ids id ((k, info) ∷ l) h = ground (arith, contains-alive_ids id l h.1)

lookup-judge_all :
    (m : Membership) (now : ℕ) (id : Bytes) (l : List (Bytes × PeerInfo)) (info : PeerInfo)
    → lookup bytes_dec id l ≡ some info
    → lookup bytes_dec id (judge_all m now l) ≡ some (judge m now id info)
unfolding lookup judge_all
lookup-judge_all m now id [] info h = cc
lookup-judge_all m now id ((k, i) ∷ l) info h = elim (bytes_dec id k) [
  | yes p ↦ ground arith
  | no p ↦ ground (arith, lookup-judge_all m now id l info)
]

lookup-judge_all-none :
    (m : Membership) (now : ℕ) (id : Bytes) (l : List (Bytes × PeerInfo))
    → lookup bytes_dec id l ≡ none
    → lookup bytes_dec id (judge_all m now l) ≡ none
unfolding lookup judge_all
lookup-judge_all-none m now id [] h = refl
lookup-judge_all-none m now id ((k, i) ∷ l) h = ground (arith, lookup-judge_all-none m now id l)

judge_all-IsMap :
    (m : Membership) (now : ℕ) (l : List (Bytes × PeerInfo))
    → IsMap bytes_dec l
    → IsMap bytes_dec (judge_all m now l)
unfolding judge_all
judge_all-IsMap m now [] h = tt
judge_all-IsMap m now ((k, i) ∷ l) h =
    (lookup-judge_all-none m now k l h.0, judge_all-IsMap m now l h.1)

judge-alive :
    (m : Membership) (now : ℕ) (id : Bytes) (info : PeerInfo)
    → (info.alive && not (judge m now id info).alive) ≡ false
    → (judge m now id info).alive ≡ info.alive
unfolding judge
judge-alive m now id info h = ground arith

alive_ids-judge_all :
    (m : Membership) (now : ℕ) (l : List (Bytes × PeerInfo))
    → is_nil (newly_dead m now l) ≡ true
    → alive_ids (judge_all m now l) ≡ alive_ids l
unfolding judge_all newly_dead alive_ids judge
alive_ids-judge_all m now [] h = refl
alive_ids-judge_all m now ((k, i) ∷ l) h =
    elim (Bool-cases (i.alive && not (judge m now k i).alive)) [
      | inl lost ↦ absurd (ground arith)
      | inr kept ↦
          let rest : is_nil (newly_dead m now l) ≡ true = ground arith in
          rw (judge-alive m now k i kept, alive_ids-judge_all m now l rest) refl
    ]

alive_ids-update :
    (now epoch : ℕ) (id : Bytes) (l : List (Bytes × PeerInfo))
    → is_dead (lookup bytes_dec id l) ≡ false
    → alive_ids (update (heard now epoch) id l) ≡ alive_ids l
unfolding update alive_ids lookup
alive_ids-update now epoch id [] h = refl
alive_ids-update now epoch id ((k, i) ∷ l) h = elim (bytes_dec id k) [
  | yes p ↦ ground arith
  | no p ↦ ground (arith, alive_ids-update now epoch id l)
]

alive_ids-note_replies :
    (now epoch : ℕ) (replied : Bytes → Bool) (ids : List Bytes) (l : List (Bytes × PeerInfo))
    → (note_replies now epoch replied ids l).1 ≡ false
    → alive_ids (note_replies now epoch replied ids l).0 ≡ alive_ids l
unfolding note_replies
alive_ids-note_replies now epoch replied [] l h = refl
alive_ids-note_replies now epoch replied (id ∷ ids) l h = elim (Bool-cases (replied id)) [
  | inl came ↦ rw came (
      alive_ids-note_replies now epoch replied ids (update (heard now epoch) id l) (ground arith)
      ∙ alive_ids-update now epoch id l (ground arith))
  | inr none_came ↦ rw none_came (alive_ids-note_replies now epoch replied ids l (ground arith))
]

emplace_known :
    (id : Bytes) (info : PeerInfo) (l : List (Bytes × PeerInfo)) {old : PeerInfo}
    → lookup bytes_dec id l ≡ some old
    → emplace id info l ≡ l
unfolding emplace
emplace_known id info l h = rw (h, emplace)

emplace_new :
    (id : Bytes) (info : PeerInfo) (l : List (Bytes × PeerInfo))
    → lookup bytes_dec id l ≡ none
    → emplace id info l ≡ (id, info) ∷ l
unfolding emplace
emplace_new id info l h = rw (h, emplace)

judge_lem :
    (m : Membership) (now : ℕ) (id : Bytes) (info : PeerInfo)
    → info.alive ≡ true
    → id ≢ m.local_node_id
    → (judge m now id info).alive
      ≡ not (info.ever_seen && ltb m.cfg.dead_after (now - info.last_seen))
unfolding judge
judge_lem m now id info alive ne = ground arith

module _ {R : Type 0} (blake3 : Bytes → Bytes) (trigger : Router → List Bytes → R → R) where
  on_membership_change-InSync :
      (lost : List Bytes) (c : Cluster R) → InSync (on_membership_change blake3 trigger lost c)
  unfolding on_membership_change set_peers
  on_membership_change-InSync lost c = refl

  send_heartbeats-InSync :
      (now : ℕ) (replied : Bytes → Bool) (c : Cluster R)
      → InSync c
      → InSync (send_heartbeats blake3 trigger now replied c)
  unfolding send_heartbeats set_peers
  send_heartbeats-InSync now replied c h =
      let m : Membership = c.membership in
      elim (Bool-cases (note_replies now m.epoch replied (heartbeat_targets m m.peers) m.peers).1) [
        | inl back ↦ simp back
        | inr same ↦ simp (
          same,
          h,
          alive_ids-note_replies now m.epoch replied (heartbeat_targets m m.peers) m.peers same,
        )
      ]

  evaluate_suspicions-InSync :
      (now : ℕ) (c : Cluster R) → InSync c → InSync (evaluate_suspicions blake3 trigger now c)
  unfolding evaluate_suspicions set_peers
  evaluate_suspicions-InSync now c h =
      let m : Membership = c.membership in
      elim (Bool-cases (is_nil (newly_dead m now m.peers))) [
        | inl same ↦ simp (same, h, alive_ids-judge_all m now m.peers same)
        | inr lost ↦ simp lost
      ]

  evaluate_suspicions-peers :
      (now : ℕ) (c : Cluster R)
      → let c' = evaluate_suspicions blake3 trigger now c in
        (c'.membership.peers ≡ judge_all c.membership now c.membership.peers)
        × (c'.membership.local_node_id ≡ c.membership.local_node_id)
  unfolding evaluate_suspicions
  evaluate_suspicions-peers now c =
      elim (Bool-cases (is_nil (newly_dead c.membership now c.membership.peers))) [
        | inl same ↦ simp same (refl, refl)
        | inr lost ↦ simp lost (refl, refl)
      ]

  -- A round of the heartbeat loop, whatever peers answer, leaves the ring over this node and the
  -- peers that are alive, if it was.
  pub heartbeat_round-InSync :
      (heard_at now : ℕ) (replied : Bytes → Bool) (c : Cluster R)
      → InSync c
      → InSync (heartbeat_round blake3 trigger heard_at now replied c)
  unfolding heartbeat_round
  heartbeat_round-InSync heard_at now replied c h =
      evaluate_suspicions-InSync now (send_heartbeats blake3 trigger heard_at replied c)
        (send_heartbeats-InSync heard_at replied c h)

  -- A heartbeat from a peer that is known leaves the ring over this node and the peers that are
  -- alive, if it was.
  pub on_heartbeat-InSync :
      (now : ℕ) (id : Bytes) (c : Cluster R) (info : PeerInfo)
      → lookup bytes_dec id c.membership.peers ≡ some info
      → InSync c
      → InSync (on_heartbeat blake3 trigger now id c).0
  unfolding on_heartbeat set_peers
  on_heartbeat-InSync now id c info k h =
      let m : Membership = c.membership in
      elim (Bool-cases (is_dead (some info))) [
        | inl dead ↦ simp (emplace_known id (unknown_peer id) m.peers k, k, dead)
        | inr same ↦ simp (
          emplace_known id (unknown_peer id) m.peers k,
          k,
          same,
          h,
          alive_ids-update now m.epoch id m.peers (ap is_dead k ∙ same),
        )
      ]

  -- A heartbeat from a peer that is not known makes it an alive peer of the membership, but the
  -- ring and the epoch stay as they were.
  pub on_heartbeat_unknown :
      (now : ℕ) (id : Bytes) (c : Cluster R)
      → lookup bytes_dec id c.membership.peers ≡ none
      → let c' = (on_heartbeat blake3 trigger now id c).0 in
        (alive_ids c'.membership.peers ≡ id ∷ alive_ids c.membership.peers)
        × (c'.router ≡ c.router)
        × (c'.membership.epoch ≡ c.membership.epoch)
  unfolding on_heartbeat alive_ids update
  on_heartbeat_unknown now id c k =
      let m : Membership = c.membership in
      simp
        (
          emplace_new id (unknown_peer id) m.peers k,
          lookup-cons_self bytes_dec id (unknown_peer id) m.peers,
          if_pos {C = List (Bytes × PeerInfo)} (bytes_dec id id) refl,
        )
        (refl, refl, refl)

  -- The failure detector on a view of distinct peers whose ring is in step with it: after it ran, a
  -- peer other than this node that was alive is on the ring exactly if it was never heard of or has
  -- been silent for no longer than `dead_after`.
  pub evaluate_suspicions_exact :
      (now : ℕ) (id : Bytes) (c : Cluster R) (info : PeerInfo)
      → IsMap bytes_dec c.membership.peers
      → InSync c
      → lookup bytes_dec id c.membership.peers ≡ some info
      → info.alive ≡ true
      → id ≢ c.membership.local_node_id
      → contains id (evaluate_suspicions blake3 trigger now c).router.peers
        ≡ not (info.ever_seen && ltb c.membership.cfg.dead_after (now - info.last_seen))
  unfolding contains
  evaluate_suspicions_exact now id c info d h k alive ne =
      let m : Membership = c.membership in
      let judged : List (Bytes × PeerInfo) = judge_all m now m.peers in
      let (peers, local) = evaluate_suspicions-peers now c in
      ap (contains id) (
        evaluate_suspicions-InSync now c h
        ∙ ap
            (λ (n : Bytes).
              n ∷ alive_ids (evaluate_suspicions blake3 trigger now c).membership.peers)
            local
        ∙ ap (λ (l : List (Bytes × PeerInfo)). m.local_node_id ∷ alive_ids l) peers)
      ∙ if_neg (bytes_dec id m.local_node_id) ne true (contains id (alive_ids judged))
      ∙ contains-alive_ids id judged (judge_all-IsMap m now m.peers d)
      ∙ ap is_alive (lookup-judge_all m now id m.peers info k)
      ∙ judge_lem m now id info alive ne
