-- ===== src/Subscription/Whole.antt =====
-- The loop of a subscription as a whole: it sends the indications in order, and ends when the client
-- has unsubscribed.
use mathlib.Core.List.{append_assoc, append-nil}
use sib_tcp.Prelude.{
  ℕ, suc, ◌+◌, ◌≡◌, refl, ap, sym, subst, ◌∙◌, true, false, none, List, [], ◌∷◌, ◌++◌, Bytes,
  length, arith,
}
use sib_tcp.Ssap.{Sibmsg}
use sib_tcp.Table.{lookup}
use sib_tcp.World.{Env}
use sib_tcp.State.{State, Waiter, Outcome, done, fault, stuck, continue, pure}
use sib_tcp.Socket.Delivery.{received, Delivers}
use sib_tcp.Consistency.{Returns}
use sib_tcp.Subscription.{Saved, Next, again, finished, subscription_round, subscription_rounds}
use sib_tcp.Subscription.Indicated.{Sent, Last, subscription_round-Sent, subscription_round-Last}
use sib_tcp.Subscription.Listening.{Listening}
use sib_tcp.Subscription.Streaming.{concat, Unsubscribes, Streams, Sends}

module _ {Msg : Type 0} (lib : Sibmsg Msg) (env : Env) (memory : (t : ℕ) → env.allocates t ≡ true)
    (q : ℕ) (saved : Saved) (subid : Bytes) where
  -- What is known of a round that sent a text, and of the rest.
  one_round :
      (fd : ℕ) (text : Bytes) (w : Waiter Msg) (s : State Msg) (Q : State Msg → Type 0)
      (o : Outcome Msg Next)
      → w.fd ≡ fd
      → Returns (Sent lib env memory q saved subid s w text) o
      → Returns (λ _ t. Q t) o
      → (t : State Msg) × (o ≡ done again t) × Sends lib env q saved subid fd text s t × Q t
  one_round fd text w s Q (done next t) same (e, got, listens) k = (
    t,
    ap (λ n. done n t) e,
    record {
      waiter = record w { req_ready = false; rsp = none };
      listens = listens;
      socket = same;
      arrived = subst (λ g. received g t.trace ≡ received g s.trace ++ text) same got;
    },
    k,
  )
  one_round fd text w s Q (fault e t) same h k = absurd h
  one_round fd text w s Q (stuck t) same h k = absurd h

  Sends-both :
      (fd : ℕ) (a b : Bytes) (s t u : State Msg)
      → Sends lib env q saved subid fd a s t
      → Sends lib env q saved subid fd b t u
      → Sends lib env q saved subid fd (a ++ b) s u
  Sends-both fd a b s t u x y = record {
    waiter = y.waiter;
    listens = y.listens;
    socket = y.socket;
    arrived =
        y.arrived ∙ ap (λ (r : Bytes). r ++ b) x.arrived ∙ append_assoc (received fd s.trace) a b;
  }

  round_again :
      (m : ℕ) (s t : State Msg)
      → subscription_round lib env q saved s ≡ done again t
      → subscription_rounds lib env (suc m) q saved s ≡ subscription_rounds lib env m q saved t
  unfolding subscription_rounds
  round_again m s t e = rw e refl

  -- The loop has sent the texts of its first rounds, and goes on from a state with `P`.
  Streams-Sends :
      (P : State Msg → Type 0) (texts : List Bytes) (m : ℕ) (s : State Msg) (w : Waiter Msg)
      → Listening subid q w s.trace s
      → Delivers env w.fd
      → Streams lib env q saved subid P texts s
      → (t : State Msg) × P t
        × Sends lib env q saved subid w.fd (concat texts) s t
        × (subscription_rounds lib env (length texts + m) q saved s
            ≡ subscription_rounds lib env m q saved t)
  unfolding Streams concat
  Streams-Sends P [] m s w h d all = (
    s,
    all,
    record { waiter = w; listens = h; socket = refl; arrived = sym (append-nil _) },
    ap (λ n. subscription_rounds lib env n q saved s) {x = 0 + m} (omega arith),
  )
  Streams-Sends P (text ∷ texts) m s w h d (i, more) =
      let (t, ran, first, later) =
        one_round w.fd text w s (Streams lib env q saved subid P texts) _ refl
          (subscription_round-Sent lib env memory q saved subid s w text h d i) more in
      let (u, end, x, goes) =
        Streams-Sends P texts m t first.waiter first.listens
          (subst (Delivers env) (sym first.socket) d) later in
      (
        u,
        end,
        Sends-both w.fd text (concat texts) s t u first
            (subst (λ fd. Sends lib env q saved subid fd (concat texts) t u) first.socket x),
        ap (λ n. subscription_rounds lib env n q saved s) {x = suc (length texts) + m} (omega arith)
            ∙ round_again (length texts + m) s t ran
            ∙ goes,
      )

  -- The client has got all that was sent, and nothing is left of the subscription.
  abbrev pub Over : ℕ → Bytes → State Msg → Unit {0} → State Msg → Type 0
  Over fd sent s _ t =
      (received fd t.trace ≡ received fd s.trace ++ sent)
      × (lookup subid t.subscriptions ≡ none)
      × (t.heap q ≡ none)

  final_round :
      (m : ℕ) (s t : State Msg) (v : Waiter Msg) (fd : ℕ) (before text : Bytes)
      (o : Outcome Msg Next)
      → v.fd ≡ fd
      → Sends lib env q saved subid fd before s t
      → Returns (Last lib env memory q saved subid t v text) o
      → Returns (Over fd (before ++ text) s) (
          continue o λ next. elim next [
            | again ↦ subscription_rounds lib env m q saved
            | finished ↦ pure tt
          ])
  final_round m s t v fd before text (done next u) same x (e, got, gone, freed) = rw e (
    subst (λ g. received g u.trace ≡ received g t.trace ++ text) same got
        ∙ ap (λ (r : Bytes). r ++ text) x.arrived
        ∙ append_assoc (received fd s.trace) before text,
    gone,
    freed,
  )
  final_round m s t v fd before text (fault e u) same x h = absurd h
  final_round m s t v fd before text (stuck u) same x h = absurd h

  -- A subscriber that gets an indication each time it waits, and at last the confirmation that the
  -- client has unsubscribed, among other steps as above, has sent the client the texts of all of
  -- them, in order, whole and nothing else, when its loop ends, which it does; the subscription is
  -- gone and its waiter freed. It is supposed that the state is consistent, that memory does not run
  -- out, that the library can build the messages, that the client's socket has no error and takes
  -- some of whatever it is given, that no text has more bytes than rounds are watched, and that the
  -- loop is watched for a round for each message.
  pub Streams-Over :
      (texts : List Bytes) (text : Bytes) (m : ℕ) (s : State Msg) (w : Waiter Msg)
      → Listening subid q w s.trace s
      → Delivers env w.fd
      → Streams lib env q saved subid (Unsubscribes lib env q saved subid text) texts s
      → Returns
          (Over w.fd (concat texts ++ text) s)
          (subscription_rounds lib env (length texts + suc m) q saved s)
  unfolding subscription_rounds
  Streams-Over texts text m s w h d all =
      let (t, e, x, goes) =
        Streams-Sends (Unsubscribes lib env q saved subid text) texts (suc m) s w h d all in
      subst (Returns (Over w.fd (concat texts ++ text) s)) (sym goes) (
        final_round m s t x.waiter w.fd (concat texts) text _ x.socket x (
          subscription_round-Last lib env memory q saved subid t x.waiter text x.listens
            (subst (Delivers env) (sym x.socket) d) e))
