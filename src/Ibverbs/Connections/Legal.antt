-- ===== src/Ibverbs/Connections/Legal.antt =====
-- The rules that the verbs give for releasing the objects of a connection, and that the teardowns
-- keep them.
use mathlib.Core.List.{append_assoc}
use lethe.Base.{
  ℕ, suc, ◌≡◌, refl, ◌∙◌, ap, sym, subst, Bool, true, false, Option, none, some, List, [], ◌∷◌,
  ◌++◌, if◌then◌else◌, get_or, set, not, ◌&&◌, ◌||◌, arith, length, length-append,
}
use lethe.Ibverbs.Connections.{
  Link, Call, join_poller, destroy_qp, destroy_cq, dealloc_pd, destroy_id, destroy_channel,
  dereg_recv, dereg_send, call_if, dereg_bufs, teardown, hang_up,
}

abbrev pub any_true : List Bool → Bool
any_true [] = false
any_true (b ∷ bs) = b || any_true bs

abbrev cleared : List Bool → List Bool
cleared [] = []
cleared (b ∷ bs) = false ∷ cleared bs

any_true-cleared : (bs : List Bool) → any_true (cleared bs) ≡ false
any_true-cleared [] = refl
any_true-cleared (b ∷ bs) = any_true-cleared bs

get_or-middle :
    (before bs : List Bool) (b : Bool) → get_or (before ++ b ∷ bs) (length before) false ≡ b
get_or-middle [] bs b = refl
get_or-middle (c ∷ before) bs b = get_or-middle before bs b

set-middle :
    (before bs : List Bool) (b : Bool)
    → set (before ++ b ∷ bs) (length before) false ≡ before ++ false ∷ bs
set-middle [] bs b = refl
set-middle (c ∷ before) bs b = ap (λ l. c ∷ l) (set-middle before bs b)

length-snoc : (before : List Bool) → length (before ++ false ∷ []) ≡ suc (length before)
length-snoc before = omega (arith, length-append before (false ∷ []))

-- What is left of a connection after a call, or none if the call breaks a rule: each object is
-- released once, the queue pair when its poller is gone, the memory regions and the completion queue
-- after the queue pair, the protection domain after those, the rdma_cm_id after the queue pair, and the
-- event channel after the rdma_cm_id.
abbrev pub released : Call → Link → Option Link
released join_poller c = if c.polling then some (record c { polling = false }) else none
released destroy_qp c = if c.qp && not c.polling then some (record c { qp = false }) else none
released (dereg_recv i) c =
    if get_or c.recv_bufs i false && not c.qp
    then some (record c { recv_bufs = set c.recv_bufs i false })
    else none
released (dereg_send i) c =
    if get_or c.send_bufs i false && not c.qp
    then some (record c { send_bufs = set c.send_bufs i false })
    else none
released destroy_cq c = if c.cq && not c.qp then some (record c { cq = false }) else none
released destroy_id c = if c.cm_id && not c.qp then some (record c { cm_id = false }) else none
released destroy_channel c =
    if c.channel && not c.cm_id then some (record c { channel = false }) else none
released dealloc_pd c =
    if c.pd && not (c.qp || c.cq || any_true c.recv_bufs || any_true c.send_bufs)
    then some (record c { pd = false })
    else none

pub replay : List Call → Link → Option Link
replay [] c = some c
replay (call ∷ calls) c = elim (released call c) [ none ↦ none | some d ↦ replay calls d ]

-- No object of the verbs is left of the connection, and no thread.
pub record IsGone (c : Link) : Type 0 where
  pub no_thread : c.polling ≡ false
  pub no_qp : c.qp ≡ false
  pub no_recv : any_true c.recv_bufs ≡ false
  pub no_send : any_true c.send_bufs ≡ false
  pub no_cq : c.cq ≡ false
  pub no_pd : c.pd ≡ false

-- Calls that may be made and that leave the rdma_cm_id and the event channel as they were, and
-- nothing else.
abbrev pub Clears : List Call → Link → Type 0
Clears calls c =
    (d : Link) × (replay calls c ≡ some d)
    × IsGone d
    × (d.cm_id ≡ c.cm_id)
    × (d.channel ≡ c.channel)

replay-step :
    (call : Call) (calls : List Call) (c d : Link)
    → released call c ≡ some d
    → replay (call ∷ calls) c ≡ replay calls d
unfolding replay
replay-step call calls c d h = rw (replay, h) refl

module _ (inbound stop cm_id channel : Bool) where
  abbrev link : Bool → Bool → Bool → List Bool → List Bool → Bool → Link
  link pd cq qp recv_bufs send_bufs polling = record {
    inbound = inbound;
    cm_id = cm_id;
    channel = channel;
    pd = pd;
    cq = cq;
    qp = qp;
    recv_bufs = recv_bufs;
    send_bufs = send_bufs;
    polling = polling;
    stop = stop;
  }

  join-replay :
      (pd cq qp polling : Bool) (rs ss : List Bool) (calls : List Call)
      → replay (call_if polling join_poller [] ++ calls) (link pd cq qp rs ss polling)
        ≡ replay calls (link pd cq qp rs ss false)
  unfolding replay
  join-replay pd cq qp true rs ss calls = refl
  join-replay pd cq qp false rs ss calls = refl

  qp-replay :
      (pd cq qp : Bool) (rs ss : List Bool) (calls : List Call)
      → replay (call_if qp destroy_qp [] ++ calls) (link pd cq qp rs ss false)
        ≡ replay calls (link pd cq false rs ss false)
  unfolding replay
  qp-replay pd cq true rs ss calls = refl
  qp-replay pd cq false rs ss calls = refl

  cq-replay :
      (pd cq : Bool) (rs ss : List Bool) (calls : List Call)
      → replay (call_if cq destroy_cq [] ++ calls) (link pd cq false rs ss false)
        ≡ replay calls (link pd false false rs ss false)
  unfolding replay
  cq-replay pd true rs ss calls = refl
  cq-replay pd false rs ss calls = refl

  pd-replay :
      (pd : Bool) (rs ss : List Bool)
      → any_true rs ≡ false
      → any_true ss ≡ false
      → replay (call_if pd dealloc_pd []) (link pd false false rs ss false)
        ≡ some (link false false false rs ss false)
  unfolding replay
  pd-replay true rs ss h k = rw (h, k) refl
  pd-replay false rs ss h k = refl

  -- The deregistrations of the buffers that stand behind the first.
  recv-released :
      (pd cq : Bool) (before bs ss : List Bool)
      → released (dereg_recv (length before)) (link pd cq false (before ++ true ∷ bs) ss false)
        ≡ some (link pd cq false (before ++ false ∷ bs) ss false)
  recv-released pd cq before bs ss =
      rw (get_or-middle before bs true, set-middle before bs true) refl

  send-released :
      (pd cq : Bool) (before bs rs : List Bool)
      → released (dereg_send (length before)) (link pd cq false rs (before ++ true ∷ bs) false)
        ≡ some (link pd cq false rs (before ++ false ∷ bs) false)
  send-released pd cq before bs rs =
      rw (get_or-middle before bs true, set-middle before bs true) refl

  bufs-replay :
      (dereg : ℕ → Call) (at : List Bool → Link)
      → ((before bs : List Bool)
          → released (dereg (length before)) (at (before ++ true ∷ bs))
            ≡ some (at (before ++ false ∷ bs)))
      → (i : ℕ) (before bs all : List Bool) (calls : List Call) → i ≡ length before
      → all ≡ before ++ bs
      → replay (dereg_bufs dereg i bs ++ calls) (at all) ≡ replay calls (at (before ++ cleared bs))
  unfolding replay dereg_bufs
  bufs-replay dereg at step i before [] all calls h k = ap (λ l. replay calls (at l)) k
  bufs-replay dereg at step i before (true ∷ bs) all calls h k =
      let here : released (dereg i) (at all) ≡ some (at (before ++ false ∷ bs)) =
        rw (h, k) (step before bs) in
      replay-step (dereg i) (dereg_bufs dereg (suc i) bs ++ calls) (at all)
        (at (before ++ false ∷ bs)) here
      ∙ (bufs-replay dereg at step (suc i) (before ++ false ∷ []) bs (before ++ false ∷ bs) calls
            (ap suc h ∙ sym (length-snoc before)) (sym (append_assoc before (false ∷ []) bs))
          ∙ ap (λ l. replay calls (at l)) (append_assoc before (false ∷ []) (cleared bs)))
  bufs-replay dereg at step i before (false ∷ bs) all calls h k =
      bufs-replay dereg at step (suc i) (before ++ false ∷ []) bs all calls
        (ap suc h ∙ sym (length-snoc before)) (k ∙ sym (append_assoc before (false ∷ []) bs))
      ∙ ap (λ l. replay calls (at l)) (append_assoc before (false ∷ []) (cleared bs))

  -- What is left of a connection that only its regions, queues and domain are to be taken from.
  abbrev gone : List Bool → List Bool → Link
  gone rs ss = link false false false rs ss false

  gone-IsGone :
      (rs ss : List Bool) → any_true rs ≡ false → any_true ss ≡ false → IsGone (gone rs ss)
  gone-IsGone rs ss h k = record {
    no_thread = refl;
    no_qp = refl;
    no_recv = h;
    no_send = k;
    no_cq = refl;
    no_pd = refl;
  }

  tail-replay :
      (pd cq : Bool) (rs ss : List Bool)
      → any_true rs ≡ false
      → any_true ss ≡ false
      → replay (call_if cq destroy_cq [] ++ call_if pd dealloc_pd []) (link pd cq false rs ss false)
        ≡ some (gone rs ss)
  tail-replay pd cq rs ss h k =
      cq-replay pd cq rs ss (call_if pd dealloc_pd []) ∙ pd-replay pd rs ss h k

  teardown-link :
      (pd cq qp polling : Bool) (rs ss : List Bool)
      → replay (teardown (link pd cq qp rs ss polling)) (link pd cq qp rs ss polling)
        ≡ some (gone (cleared rs) (cleared ss))
  unfolding teardown
  teardown-link pd cq qp polling rs ss =
      let tail = call_if cq destroy_cq [] ++ call_if pd dealloc_pd [] in
      let sends = dereg_bufs dereg_send 0 ss ++ tail in
      let recvs = dereg_bufs dereg_recv 0 rs ++ sends in
      join-replay pd cq qp polling rs ss (call_if qp destroy_qp [] ++ recvs)
      ∙ (qp-replay pd cq qp rs ss recvs
          ∙ (bufs-replay dereg_recv (λ l. link pd cq false l ss false)
                (λ before bs. recv-released pd cq before bs ss) 0 [] rs rs sends refl refl
              ∙ (bufs-replay dereg_send (λ l. link pd cq false (cleared rs) l false)
                    (λ before bs. send-released pd cq before bs (cleared rs)) 0 [] ss ss tail refl
                    refl
                  ∙ tail-replay pd cq (cleared rs) (cleared ss) (any_true-cleared rs)
                      (any_true-cleared ss))))

  hang_up-link :
      (pd cq qp polling : Bool) (ss : List Bool)
      → replay (hang_up (link pd cq qp [] ss polling)) (link pd cq qp [] ss polling)
        ≡ some (gone [] (cleared ss))
  unfolding hang_up
  hang_up-link pd cq qp polling ss =
      let tail = call_if cq destroy_cq [] ++ call_if pd dealloc_pd [] in
      let sends = dereg_bufs dereg_send 0 ss ++ tail in
      join-replay pd cq qp polling [] ss (call_if qp destroy_qp [] ++ sends)
      ∙ (qp-replay pd cq qp [] ss sends
          ∙ (bufs-replay dereg_send (λ l. link pd cq false [] l false)
                (λ before bs. send-released pd cq before bs []) 0 [] ss ss tail refl refl
              ∙ tail-replay pd cq [] (cleared ss) refl (any_true-cleared ss)))

pub teardown-Clears : (c : Link) → Clears (teardown c) c
teardown-Clears c = (
  gone c.inbound c.stop c.cm_id c.channel (cleared c.recv_bufs) (cleared c.send_bufs),
  teardown-link c.inbound c.stop c.cm_id c.channel c.pd c.cq c.qp c.polling c.recv_bufs c.send_bufs,
  gone-IsGone c.inbound c.stop c.cm_id c.channel (cleared c.recv_bufs) (cleared c.send_bufs)
      (any_true-cleared c.recv_bufs) (any_true-cleared c.send_bufs),
  refl,
  refl,
)

-- `Disconnect` takes down a connection without receive buffers.
pub hang_up-Clears : (c : Link) → c.recv_bufs ≡ [] → Clears (hang_up c) c
hang_up-Clears c h =
    subst (λ (d : Link). Clears (hang_up d) d) (λ i. record c { recv_bufs = sym h i })
      (
        gone c.inbound c.stop c.cm_id c.channel [] (cleared c.send_bufs),
        hang_up-link c.inbound c.stop c.cm_id c.channel c.pd c.cq c.qp c.polling c.send_bufs,
        gone-IsGone c.inbound c.stop c.cm_id c.channel [] (cleared c.send_bufs) refl
            (any_true-cleared c.send_bufs),
        refl,
        refl,
      )
