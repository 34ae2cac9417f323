-- ===== src/Rmcp/Ipmb/State/Fresh.antt =====
-- No IPMB sequence number is used twice in a session.
use ipmi_rs.Base.{
  ◌*◌, ◌/◌, drop, bit_or, bit_or_pair, ℕ, zero, suc, ◌+◌, ◌%◌, ◌<◌, ◌≡◌, refl, sym, ap, ◌∙◌, Bool,
  true, false, List, [], ◌∷◌, ◌++◌, Option, none, some, ok, arith, length, get_or, set, All,
  All-append, Distinct, Bool-cases, inl, inr, length-set, get_or-set_self, get_or-set_ne,
  if◌then◌else◌,
}
use native.Mathlib.Decide.{ℕ_discrete}
use ipmi_rs.Connection.Channel.{lun_value, lun_value-lt, LogicalUnit, lun_zero}
use mathlib.Core.Path.{subst}
use mathlib.Core.Bool.{◌||◌}
use ipmi_rs.Connection.NetFn.{request_value}
use ipmi_rs.Connection.Message.{Request, request_netfn}
use ipmi_rs.Rmcp.Ipmb.Packet.{ExpectedReply, at, shl2, ipmb_request}
use ipmi_rs.Rmcp.Ipmb.State.{
  IpmbState, PendingRequest, ipmb_default, next_reply, retired, begin, begin_route, Route, local,
  bridge, any_retired, needed_sequences, poll_message, Begun, spend, route_of, queue_available,
  on_pending, get_message, get_message_flags, app_netfn, send_message,
}

abbrev pub used : IpmbState → ℕ → Bool
used s i = get_or s.retired_sequences i false

pub record IsSequenced (s : IpmbState) : Type 0 where
  pub current : s.ipmb_sequence < 64
  pub table : length s.retired_sequences ≡ 64

pub ipmb_default-IsSequenced : IsSequenced ipmb_default
unfolding ipmb_default
ipmb_default-IsSequenced = record { current = omega arith; table = refl }

-- `s'` comes from `s` by using the numbers `new`, none of which was used before.
pub record Uses (s s' : IpmbState) (new : List ℕ) : Type 0 where
  pub unused : All (λ i. used s i ≡ false) new
  pub marked : All (λ i. used s' i ≡ true) new
  pub kept : (i : ℕ) → used s i ≡ true → used s' i ≡ true
  pub distinct : Distinct new
  pub sequenced : IsSequenced s'

-- One number: the current one, and the next one becomes current.
next_reply-Uses :
    (s : IpmbState) (netfn cmd addr : ℕ) (lun : LogicalUnit) (requestor : ℕ)
    → IsSequenced s
    → retired s s.ipmb_sequence ≡ false
    → Uses s (next_reply s netfn cmd addr lun requestor).0 (s.ipmb_sequence % 64 ∷ [])
unfolding next_reply
next_reply-Uses s netfn cmd addr lun requestor w free = record {
  unused = (free, tt);
  marked = (
    get_or-set_self s.retired_sequences (s.ipmb_sequence % 64) true false (omega (arith, w.table)),
    tt,
  );
  kept = λ i h. elim (ℕ_discrete (s.ipmb_sequence % 64) i) [
    | yes e ↦
        ap (λ k. get_or (set s.retired_sequences (s.ipmb_sequence % 64) true) k false) (sym e)
        ∙ get_or-set_self s.retired_sequences (s.ipmb_sequence % 64) true false
            (omega (arith, w.table))
    | no n ↦ get_or-set_ne s.retired_sequences (s.ipmb_sequence % 64) i true false n ∙ h
  ];
  distinct = (tt, tt);
  sequenced = record {
    current = omega arith;
    table = length-set s.retired_sequences (s.ipmb_sequence % 64) true ∙ w.table;
  };
}

-- The numbers further on are as they were.
retired-next_reply :
    (s : IpmbState) (netfn cmd addr : ℕ) (lun : LogicalUnit) (requestor j : ℕ)
    → j < 63
    → let s' = (next_reply s netfn cmd addr lun requestor).0 in
      retired s' (s'.ipmb_sequence + j) ≡ retired s (s.ipmb_sequence + 1 + j)
unfolding next_reply
retired-next_reply s netfn cmd addr lun requestor j h =
    get_or-set_ne s.retired_sequences (s.ipmb_sequence % 64) _ true false (λ e. omega arith)
    ∙ ap (λ k. get_or s.retired_sequences k false) index
  where
    index : ((s.ipmb_sequence % 64 + 1) % 64 + j) % 64 ≡ (s.ipmb_sequence + 1 + j) % 64
    index = omega arith

retired-next_reply_now :
    (s : IpmbState) (netfn cmd addr : ℕ) (lun : LogicalUnit) (requestor : ℕ)
    → let s' = (next_reply s netfn cmd addr lun requestor).0 in
      retired s' s'.ipmb_sequence ≡ retired s (s.ipmb_sequence + 1)
retired-next_reply_now s netfn cmd addr lun requestor =
    let s' = (next_reply s netfn cmd addr lun requestor).0 in
    let e : s'.ipmb_sequence ≡ s'.ipmb_sequence + 0 = omega arith in
    let f : s.ipmb_sequence + 1 + 0 ≡ s.ipmb_sequence + 1 = omega arith in
    ap (retired s') e
    ∙ retired-next_reply s netfn cmd addr lun requestor 0 (omega arith)
    ∙ ap (retired s) f

unused_before :
    (s s' : IpmbState)
    → ((i : ℕ) → used s i ≡ true → used s' i ≡ true)
    → (new : List ℕ) → All (λ i. used s' i ≡ false) new
    → All (λ i. used s i ≡ false) new
unused_before s s' kept [] h = tt
unused_before s s' kept (i ∷ is) h = (
  elim (Bool-cases (used s i)) [ inl u ↦ cc (kept i u, h.0) | inr f ↦ f ],
  unused_before s s' kept is h.1,
)

pub marked_after :
    (s s' : IpmbState)
    → ((i : ℕ) → used s i ≡ true → used s' i ≡ true)
    → (old : List ℕ) → All (λ i. used s i ≡ true) old
    → All (λ i. used s' i ≡ true) old
marked_after s s' kept [] h = tt
marked_after s s' kept (i ∷ is) h = (kept i h.0, marked_after s s' kept is h.1)

apart_from :
    (s : IpmbState) (x : ℕ) (new : List ℕ)
    → used s x ≡ true
    → All (λ i. used s i ≡ false) new
    → All (λ y. ¬ (x ≡ y)) new
apart_from s x [] u h = tt
apart_from s x (y ∷ ys) u h = (λ e. cc (u, h.0, ap (used s) e), apart_from s x ys u h.1)

-- Numbers that were used before new ones came are apart from these.
pub Distinct-used :
    (s : IpmbState) (old new : List ℕ)
    → Distinct old
    → All (λ i. used s i ≡ true) old
    → Distinct new
    → All (λ i. used s i ≡ false) new
    → Distinct (old ++ new)
Distinct-used s [] new d u dn un = dn
Distinct-used s (x ∷ xs) new d u dn un = (
  All-append (λ y. ¬ (x ≡ y)) xs new d.0 (apart_from s x new u.0 un),
  Distinct-used s xs new d.1 u.1 dn un,
)

Uses-trans : (s t u : IpmbState) (a b : List ℕ) → Uses s t a → Uses t u b → Uses s u (a ++ b)
Uses-trans s t u a b p q = record {
  unused = All-append (λ i. used s i ≡ false) a b p.unused (unused_before s t p.kept b q.unused);
  marked = All-append (λ i. used u i ≡ true) a b (marked_after t u q.kept a p.marked) q.marked;
  kept = λ i h. q.kept i (p.kept i h);
  distinct = Distinct-used t a b p.distinct p.marked q.distinct q.unused;
  sequenced = q.sequenced;
}

-- The numbers of the requests that a pending request waits for, in the order of their use.
numbers : PendingRequest → List ℕ
numbers p = number p.bmc_ack ++ (number p.transit_ack ++ (p.final_reply.sequence ∷ []))
  where
    number : Option ExpectedReply → List ℕ
    number none = []
    number (some e) = e.sequence ∷ []

-- The numbers in a packet that encloses others, as many as `count`: each is in the upper six bits of its
-- packet's fifth byte, and an enclosed packet begins behind the seven bytes before it.
unfoldable pub sent_numbers : ℕ → List ℕ → List ℕ
sent_numbers zero packet = []
sent_numbers (suc count) packet = at packet 4 / 4 ∷ sent_numbers count (drop 7 packet)

number_byte :
    (sequence : ℕ) (lun : LogicalUnit)
    → sequence < 64
    → bit_or (shl2 sequence) (lun_value lun) / 4 ≡ sequence
number_byte sequence lun h =
    let shifted : shl2 sequence ≡ sequence * 4 = omega arith in
    ap (λ x. bit_or x (lun_value lun) / 4) shifted
    ∙ ap (λ x. x / 4) (bit_or_pair sequence (lun_value lun) h (lun_value-lt lun))
    ∙ omega (arith, lun_value-lt lun)

first_number :
    (e : ExpectedReply) (body : List ℕ)
    → e.sequence < 64
    → at (ipmb_request e body) 4 / 4 ≡ e.sequence
unfolding ipmb_request
first_number e body h = number_byte e.sequence e.requestor_lun h

enclosed_numbers :
    (ack e : ExpectedReply) (channel : ℕ) (body : List ℕ)
    → ack.sequence < 64
    → e.sequence < 64
    → sent_numbers 2 (ipmb_request ack (channel ∷ ipmb_request e body))
      ≡ ack.sequence ∷ e.sequence ∷ []
unfolding sent_numbers ipmb_request
enclosed_numbers ack e channel body h k =
    rw (number_byte ack.sequence ack.requestor_lun h, number_byte e.sequence e.requestor_lun k)

doubly_enclosed_numbers :
    (ack hop e : ExpectedReply) (a b : ℕ) (body : List ℕ)
    → ack.sequence < 64
    → hop.sequence < 64
    → e.sequence < 64
    → sent_numbers 3 (ipmb_request ack (a ∷ ipmb_request hop (b ∷ ipmb_request e body)))
      ≡ ack.sequence ∷ hop.sequence ∷ e.sequence ∷ []
unfolding sent_numbers ipmb_request
doubly_enclosed_numbers ack hop e a b body h k l = rw (
  number_byte ack.sequence ack.requestor_lun h,
  number_byte hop.sequence hop.requestor_lun k,
  number_byte e.sequence e.requestor_lun l,
)

-- The packet that begins a request carries the numbers that are waited for.
begin_route-sent_numbers :
    (s : IpmbState) (netfn cmd : ℕ) (body : List ℕ) (deadline : ℕ) (route : Route)
    → sent_numbers (needed_sequences route) (begin_route s netfn cmd body deadline route).payload
      ≡ numbers (begin_route s netfn cmd body deadline route).pending
unfolding begin_route numbers needed_sequences next_reply sent_numbers
begin_route-sent_numbers s netfn cmd body deadline (local lun) =
    ap (λ x. x ∷ []) (first_number _ body (omega arith))
begin_route-sent_numbers s netfn cmd body deadline (bridge target none) =
    enclosed_numbers _ _ _ body (omega arith) (omega arith)
begin_route-sent_numbers s netfn cmd body deadline (bridge target (some hop)) =
    doubly_enclosed_numbers _ _ _ _ _ body (omega arith) (omega arith) (omega arith)

second :
    (s : IpmbState) (k : ℕ)
    → any_retired s s.ipmb_sequence (suc (suc k)) ≡ false
    → retired s (s.ipmb_sequence + 1) ≡ false
unfolding any_retired
second s k free = ground arith

third :
    (s : IpmbState)
    → any_retired s s.ipmb_sequence 3 ≡ false
    → retired s (s.ipmb_sequence + 1 + 1) ≡ false
unfolding any_retired
third s free = ground arith

begin_route-Uses :
    (s : IpmbState) (netfn cmd : ℕ) (body : List ℕ) (deadline : ℕ) (route : Route)
    → IsSequenced s
    → any_retired s s.ipmb_sequence (needed_sequences route) ≡ false
    → Uses s
        (begin_route s netfn cmd body deadline route).state
        (numbers (begin_route s netfn cmd body deadline route).pending)
unfolding begin_route numbers any_retired needed_sequences
begin_route-Uses s netfn cmd body deadline (local lun) w free =
    next_reply-Uses s netfn cmd s.responder_addr lun s.requestor_addr w (ground arith)
begin_route-Uses s netfn cmd body deadline (bridge target none) w free =
    let p =
      next_reply-Uses s app_netfn send_message s.responder_addr lun_zero s.requestor_addr w
        (ground arith) in
    let s₁ = (next_reply s app_netfn send_message s.responder_addr lun_zero s.requestor_addr).0 in
    Uses-trans s s₁ _ _ _ p (
      next_reply-Uses s₁ netfn cmd target.address target.lun s.requestor_addr p.sequenced (
        retired-next_reply_now s app_netfn send_message s.responder_addr lun_zero s.requestor_addr
        ∙ second s 0 free))
begin_route-Uses s netfn cmd body deadline (bridge target (some hop)) w free =
    let p =
      next_reply-Uses s app_netfn send_message s.responder_addr lun_zero s.requestor_addr w
        (ground arith) in
    let s₁ = (next_reply s app_netfn send_message s.responder_addr lun_zero s.requestor_addr).0 in
    let now =
      retired-next_reply_now s app_netfn send_message s.responder_addr lun_zero s.requestor_addr in
    let q =
      next_reply-Uses s₁ app_netfn send_message hop.address hop.lun s.requestor_addr p.sequenced
        (now ∙ second s 1 free) in
    let s₂ = (next_reply s₁ app_netfn send_message hop.address hop.lun s.requestor_addr).0 in
    let r = next_reply-Uses s₂ netfn cmd target.address target.lun s.responder_addr q.sequenced (
      retired-next_reply_now s₁ app_netfn send_message hop.address hop.lun s.requestor_addr
      ∙ retired-next_reply s app_netfn send_message s.responder_addr lun_zero s.requestor_addr 1
          (omega arith)
      ∙ third s free) in
    Uses-trans s s₁ _ _ _ p (Uses-trans s₁ s₂ _ _ _ q r)

any_retired-spend :
    (s : IpmbState) (n index left : ℕ)
    → any_retired (spend s n) index left ≡ any_retired s index left
unfolding any_retired
any_retired-spend s n index zero = refl
any_retired-spend s n index (suc left) =
    ap (λ b. retired s index || b) (any_retired-spend s n (index + 1) left)

-- What `begin` does when it does not fail.
abbrev begun : IpmbState → Request → ℕ → Begun
begun s request deadline =
    let route = route_of s request.target in
    begin_route (spend s (needed_sequences route)) (request_value (request_netfn request))
      request.message.cmd request.message.payload deadline route

begin-ok :
    (s : IpmbState) (request : Request) (deadline : ℕ) (r : IpmbState × List ℕ)
    → begin s request deadline ≡ ok r
    → (any_retired s s.ipmb_sequence (needed_sequences (route_of s request.target)) ≡ false)
      × (r.0 ≡ record (begun s request deadline).state {
        pending = some (begun s request deadline).pending;
      })
      × (s.pending ≡ none)
      × (r.1 ≡ (begun s request deadline).payload)
unfolding begin
begin-ok s request deadline r e = ground arith

-- A request that begins sends a packet whose numbers were not used before.
pub begin-Uses :
    (s : IpmbState) (request : Request) (deadline : ℕ) (r : IpmbState × List ℕ)
    → IsSequenced s
    → begin s request deadline ≡ ok r
    → Uses s r.0 (sent_numbers (needed_sequences (route_of s request.target)) r.1)
begin-Uses s request deadline r w e =
    let (free, after, _, payload) = begin-ok s request deadline r e in
    let b = begun s request deadline in
    let n = needed_sequences (route_of s request.target) in
    let u =
      begin_route-Uses (spend s n) (request_value (request_netfn request)) request.message.cmd
        request.message.payload deadline (route_of s request.target)
        (record { current = w.current; table = w.table })
        (any_retired-spend s n s.ipmb_sequence n ∙ free) in
    let carried =
      begin_route-sent_numbers (spend s n) (request_value (request_netfn request))
        request.message.cmd request.message.payload deadline (route_of s request.target) in
    let same : numbers b.pending ≡ sent_numbers n r.1 =
      sym (ap (sent_numbers n) payload ∙ carried) in
    subst (λ t. Uses s t (sent_numbers n r.1)) (sym after)
      (subst (λ new. Uses s (record b.state { pending = some b.pending }) new) same
        (record {
          unused = u.unused;
          marked = u.marked;
          kept = u.kept;
          distinct = u.distinct;
          sequenced = record { current = u.sequenced.current; table = u.sequenced.table };
        }))

-- The state in which a queue probe has been sent.
abbrev polled : IpmbState → IpmbState
polled s =
    let cmd = if queue_available s then get_message else get_message_flags in
    let (s', reply) = next_reply s app_netfn cmd s.responder_addr lun_zero s.requestor_addr in
    on_pending s' (λ p. record p { poll = some reply })

poll_message-ok :
    (s : IpmbState) (packet : List ℕ)
    → (poll_message s).1 ≡ ok packet
    → (retired s s.ipmb_sequence ≡ false)
      × ((poll_message s).0 ≡ polled s)
      × (sent_numbers 1 packet ≡ s.ipmb_sequence % 64 ∷ [])
unfolding poll_message next_reply sent_numbers
poll_message-ok s packet e = ground (
  arith,
  first_number (next_reply s app_netfn get_message s.responder_addr lun_zero s.requestor_addr).1 [],
  first_number
      (next_reply s app_netfn get_message_flags s.responder_addr lun_zero s.requestor_addr).1 [],
)

-- A queue probe that is sent uses one number, which was not used before.
pub poll_message-Uses :
    (s : IpmbState) (packet : List ℕ)
    → IsSequenced s
    → (poll_message s).1 ≡ ok packet
    → Uses s (poll_message s).0 (sent_numbers 1 packet)
poll_message-Uses s packet w e =
    let (free, after, number) = poll_message-ok s packet e in
    let cmd = if queue_available s then get_message else get_message_flags in
    let u = next_reply-Uses s app_netfn cmd s.responder_addr lun_zero s.requestor_addr w free in
    subst (λ t. Uses s t (sent_numbers 1 packet)) (sym after)
      (subst (λ new. Uses s (polled s) new) (sym number)
        (record {
          unused = u.unused;
          marked = u.marked;
          kept = u.kept;
          distinct = u.distinct;
          sequenced = record { current = u.sequenced.current; table = u.sequenced.table };
        }))
