-- ===== src/Subscribe/Lasting.antt =====
-- A subscription from its request to its end.
use mathlib.Core.List.{append_assoc}
use sib_tcp.Prelude.{
  ℕ, ◌+◌, ◌≤◌, ◌<◌, ◌-◌, suc, ◌≡◌, refl, ap, sym, subst, ◌∙◌, true, false, Option, none, some, List,
  ◌∷◌, ◌++◌, ℤ, pos, Bytes, ==_refl, int_eq, is_neg, length, bytes_eq_refl, arith, All,
}
use sib_tcp.Ssap.{Sibmsg, Call, QueryType, send_subscribe}
use sib_tcp.Key.{get_request_key}
use sib_tcp.Table.{lookup, lookup-insert}
use sib_tcp.Table.Uses.{uses-insert}
use sib_tcp.World.{Env, Event, subscribe_cnf}
use sib_tcp.State.{State, Waiter, Outcome, done, fault, stuck, continue, load, dbus, ◌>>=◌}
use sib_tcp.Socket.Delivery.{received, received-dbus, Delivers}
use sib_tcp.Waiting.{waiter_wait_for_finished}
use sib_tcp.Waiting.Registering.{with_request, new_waiter, register_free}
use sib_tcp.Consistency.{IsConsistent, Returns, Returns-both, Returns-mono}
use sib_tcp.Request.{buffer, query_type_of}
use sib_tcp.Request.Operations.{if_typed}
use sib_tcp.Request.Dispatching.{called, typed_call}
use sib_tcp.Subscription.{subscription_rounds}
use sib_tcp.Subscription.Streaming.{Streams, Unsubscribes, concat}
use sib_tcp.Subscription.Whole.{Streams-Over}
use sib_tcp.Subscribe.{on_confirmation, saved_of, listener_handle_subscribe, subscribe_with}
use sib_tcp.Subscribe.Confirming.{wait-Pending}
use sib_tcp.Waiting.Pending.{Pending, Spares}
use sib_tcp.Waiting.Pending.Steps.{Still}
use sib_tcp.Subscribe.Opening.{
  Opened, confirms, registered_state, confirmed-OpensWith, confirms-Keeps,
}

module _ {Msg : Type 0} (lib : Sibmsg Msg) (env : Env) (fd : ℕ) (msg : Msg) (s : State Msg)
    (space : Bytes) (status : ℤ) (subid : Bytes) (results : Option Bytes) where
  abbrev node : Bytes
  node = lib.get_nodeid msg

  abbrev num : ℤ
  num = lib.get_msgnumber msg

  abbrev pub key : Bytes
  key = get_request_key node num

  abbrev style : QueryType
  style = query_type_of (lib.get_query_style msg)

  abbrev pub call : Call
  call = send_subscribe (lib.get_spaceid msg) node num style (lib.get_m3xml msg)

  -- What the daemon confirms, as a message.
  abbrev pub confirmation : Msg
  confirmation = lib.new_subscribe_rsp space node num status subid results

  -- The waiter of the request, once it has been woken.
  abbrev pub woken : Waiter Msg
  woken = record (new_waiter key fd) { rsp = some confirmation }

  -- The state in which the handler begins to wait.
  abbrev pub waiting_state : State Msg
  waiting_state = record (called call (with_request env fd node num s)) { clock = s.clock + 1 + 1 }

  waiting_state-Pending :
      IsConsistent s → Pending key s.next (new_waiter key fd) (dbus call ∷ s.trace) waiting_state
  waiting_state-Pending h = record {
    consistent = record {
      owned = λ r. ground (arith, h.owned r, h.fresh s.next, uses-insert r key s.next s.requests);
      fresh = λ r le. ground (arith, h.fresh r);
    };
    registered = lookup-insert key key s.next s.requests ∙ (rw (bytes_eq_refl key) refl);
    content = ground (arith, ==_refl s.next);
    quiet = refl;
  }

  abbrev pub sid : Bytes
  sid = lib.get_subscriptionid confirmation

  -- In a state in which the handler has the confirmation: what it does up to the loop.
  abbrev pub opening : Bytes → State Msg → Outcome Msg ℤ
  opening text v =
      confirms lib env fd msg confirmation v s.next woken text
        (registered_state lib env fd msg confirmation v s.next woken text)

  -- These rounds of the loop of a subscription on the waiter `q`.
  abbrev pub Going : ℕ → List Bytes → Bytes → State Msg → Type 0
  Going q texts ending =
      Streams lib env q (saved_of lib env confirmation) sid
        (Unsubscribes lib env q (saved_of lib env confirmation) sid ending) texts

  -- The subscription is new, and its loop goes so.
  abbrev pub Begins : Bytes → List Bytes → Bytes → State Msg → Type 0
  Begins text texts ending v =
      (lookup sid v.subscriptions ≡ none)
      × Returns (λ _ t. Going v.next texts ending t) (opening text v)

  -- The client has got these texts, and nothing is left of the subscription, whose waiter was made
  -- after the wait.
  abbrev pub Lived : Bytes → State Msg → Type 0
  Lived texts t =
      (received fd t.trace ≡ received fd s.trace ++ texts)
      × (lookup sid t.subscriptions ≡ none)
      × (v : State Msg) × (waiter_wait_for_finished lib env s.next waiting_state ≡ done tt v)
      × (t.heap v.next ≡ none)

  module _ (text ending : Bytes) (texts : List Bytes) (memory : (u : ℕ) → env.allocates u ≡ true)
      (d : Delivers env fd) (enough : length texts < env.rounds) where
    abbrev all : Bytes
    all = text ++ (concat texts ++ ending)

    ends-Lived :
        (v t : State Msg)
        → waiter_wait_for_finished lib env s.next waiting_state ≡ done tt v
        → v.trace ≡ dbus call ∷ s.trace
        → IsConsistent t
        → Opened lib env fd msg confirmation v s.next woken text t
        → Going v.next texts ending t
        → Returns
            (λ _ u. Lived all u)
            (subscription_rounds lib env env.rounds v.next (saved_of lib env confirmation) t)
    ends-Lived v t waited quiet c x k =
        subst
          (λ n.
            Returns (λ _ u. Lived all u)
              (subscription_rounds lib env n v.next (saved_of lib env confirmation) t))
          fuel
          (Returns-mono _ (λ _ u. Lived all u) _
            (Streams-Over lib env memory v.next (saved_of lib env confirmation) sid texts ending
              (env.rounds - length texts - 1) t (new_waiter sid fd)
              (record {
                consistent = c;
                subscribed = x.registered;
                content = x.waiter;
                quiet = refl;
              })
              d k)
            λ _ u y. (
              y.0
                  ∙ ap (λ (b : Bytes). b ++ (concat texts ++ ending))
                      (x.arrived ∙ ap (λ (b : Bytes). b ++ text) heard)
                  ∙ append_assoc (received fd s.trace) text (concat texts ++ ending),
              y.1,
              v,
              waited,
              y.2,
            ))
      where
        fuel : length texts + suc (env.rounds - length texts - 1) ≡ env.rounds
        fuel = omega arith

        heard : received fd v.trace ≡ received fd s.trace
        heard = ap (received fd) quiet ∙ received-dbus fd call s.trace

    module _ (accepted : int_eq (lib.get_msg_status confirmation) (pos 2) ≡ true)
        (built : buffer lib env (
            lib.create_subscribe_response
              (lib.get_nodeid confirmation)
              (lib.get_spaceid confirmation)
              (lib.get_msgnumber confirmation)
              (lib.get_msg_status confirmation)
              (some sid)
              (lib.get_m3xml confirmation))
          ≡ some text)
        (few : length text ≤ env.rounds) where
      -- From the confirmation on.
      opens-Lived :
          (v : State Msg)
          → waiter_wait_for_finished lib env s.next waiting_state ≡ done tt v
          → Pending key s.next woken (dbus call ∷ s.trace) v
          → Begins text texts ending v
          → Returns
              (λ _ u. Lived all u)
              (on_confirmation lib env fd msg s.next (some confirmation) v)
      opens-Lived v waited k (unknown, goes) =
          let (t, same, x, (g, c)) =
            confirmed-OpensWith lib env fd msg confirmation v s.next woken text
              (λ t. Going v.next texts ending t × IsConsistent t) k.consistent (memory v.clock)
              k.content k.registered unknown accepted built d d few
              (Returns-both (λ _ t. Going v.next texts ending t) (λ _ t. IsConsistent t) _ goes
                (confirms-Keeps lib env fd msg confirmation v s.next woken text k.consistent unknown
                  d few)) in
          subst (Returns (λ _ u. Lived all u)) (sym same) (ends-Lived v t waited k.quiet c x g)

      waited-Lived :
          (o : Outcome Msg (Unit {0}))
          → waiter_wait_for_finished lib env s.next waiting_state ≡ o
          → Returns (Still key s.next woken (dbus call ∷ s.trace)) o
          → Returns (λ _ v. Begins text texts ending v) o
          → Returns
              (λ _ u. Lived all u)
              (continue o λ _. do w ← load s.next; on_confirmation lib env fd msg s.next w.rsp)
      waited-Lived (done tt v) waited k b = rw k.content (opens-Lived v waited k b)
      waited-Lived (fault e v) waited k b = absurd k
      waited-Lived (stuck v) waited k b = absurd k

  -- A subscription that the daemon takes and confirms, from the request to the unsubscription, among
  -- the steps of other threads: the handler of the subscribe request returns, the client has got the
  -- confirmation, the texts of all the indications, in order, and the response to the
  -- unsubscription, whole and nothing else, the subscription has gone from the table and its waiter,
  -- made after the first wait, has been freed. It is supposed that the state is consistent, that
  -- memory does not run out, that the request is new, the query supported and the request taken;
  -- that the confirmation, with status 2, comes while the handler waits, among any number of other
  -- steps that are not about its request, and the subscription is new then; that each time the loop
  -- waits, from the state in which it begins, an indication comes, and at last the confirmation of
  -- the unsubscription, to a request that is pending then, among any number of other steps that are
  -- not about the subscription nor rounds of the waking thread; that the library can build each
  -- text; that the client's socket has no error and takes some of whatever it is given; that no text
  -- has more bytes than rounds are watched, and there are less indications than these.
  pub subscription-Lived :
      (before after : List Event) (rest : List (List Event)) (text ending : Bytes)
      (texts : List Bytes)
      → IsConsistent s
      → ((t : ℕ) → env.allocates t ≡ true)
      → lookup key s.requests ≡ none
      → if_typed style call ≡ some call
      → is_neg (env.dbus_result (s.clock + 1) call) ≡ false
      → env.waits (s.clock + 1 + 1)
        ≡ (before ++ (subscribe_cnf space node num status subid results ∷ after)) ∷ rest
      → All (Spares key) before
      → All (Spares key) after
      → int_eq (lib.get_msg_status confirmation) (pos 2) ≡ true
      → buffer lib env (
          lib.create_subscribe_response
            (lib.get_nodeid confirmation)
            (lib.get_spaceid confirmation)
            (lib.get_msgnumber confirmation)
            (lib.get_msg_status confirmation)
            (some sid)
            (lib.get_m3xml confirmation))
        ≡ some text
      → Delivers env fd
      → length text ≤ env.rounds
      → length texts < env.rounds
      → Returns
          (λ _ v. Begins text texts ending v)
          (waiter_wait_for_finished lib env s.next waiting_state)
      → Returns
          (λ _ t. Lived (text ++ (concat texts ++ ending)) t)
          (listener_handle_subscribe lib env fd msg s)
  unfolding listener_handle_subscribe subscribe_with
  subscription-Lived before after rest text ending texts h memory free supported taken comes first
        later accepted built d few enough goes =
      rw
        (
          register_free env fd node num s (memory s.clock) free,
          typed_call lib env style call call (with_request env fd node num s) supported taken,
        )
        (waited-Lived text ending texts memory d enough accepted built few _ refl
          (wait-Pending lib env memory space node num status subid results s.next
            (new_waiter key fd) (dbus call ∷ s.trace) before after rest waiting_state comes first
            later (waiting_state-Pending h))
          goes)
