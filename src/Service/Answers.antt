-- ===== src/Service/Answers.antt =====
-- A connection from its first request to its end: the requests that come on it are answered in order.
use sib_tcp.Prelude.{
  ℕ, zero, suc, ◌+◌, ◌≤◌, ◌≡◌, refl, ap, sym, subst, ◌∙◌, true, false, Option, none, some, List, [],
  ◌∷◌, ◌++◌, ℤ, Bytes, All, arith, is_neg, length,
}
use mathlib.Core.List.{append_assoc, append-nil}
use sib_tcp.Ssap.{Sibmsg, Call, Name, join, leave, insert, update, remove, query}
use sib_tcp.Key.{get_request_key}
use sib_tcp.Table.{lookup}
use sib_tcp.World.{Env, Event}
use sib_tcp.State.{State}
use sib_tcp.Socket.Delivery.{received, Delivers}
use sib_tcp.Waiting.Pending.{Spares}
use sib_tcp.Consistency.{IsConsistent, Returns, Returns-continue, Returns-both, Returns-mono}
use sib_tcp.Request.Operations.{
  Operation, joins, leaves, inserts, removes, updates, queries, confirmation, call_of, handler,
}
use sib_tcp.Request.Answering.{SameShared-IsConsistent}
use sib_tcp.Request.Served.{served, built}
use sib_tcp.Client.{Client, Received, client_receive_message}
use sib_tcp.Client.Framing.{Counts, FitsBuffer, IsClient, IsReceived, unread}
use sib_tcp.Client.Receiving.{client_receive_message-IsReceived}
use sib_tcp.Subscription.Streaming.{concat}
use sib_tcp.Service.{listener_handle_request, client_rounds, is_pos}

-- The name of a request of each kind.
abbrev pub name_of : Operation → Name
name_of joins = join
name_of leaves = leave
name_of inserts = insert
name_of removes = remove
name_of updates = update
name_of queries = query

module _ {Msg : Type 0} (lib : Sibmsg Msg) (env : Env) where
  dispatched :
      (op : Operation) (fd : ℕ) (msg : Msg) (s : State Msg)
      → lib.get_name msg ≡ name_of op
      → listener_handle_request lib env fd msg s ≡ handler lib env op fd msg s
  unfolding listener_handle_request
  dispatched joins fd msg s e = rw e refl
  dispatched leaves fd msg s e = rw e refl
  dispatched inserts fd msg s e = rw e refl
  dispatched removes fd msg s e = rw e refl
  dispatched updates fd msg s e = rw e refl
  dispatched queries fd msg s e = rw e refl

  -- The message is a request of one of the six kinds, supported and new; the daemon takes it and
  -- confirms it while the handler waits, and the library makes this text of the confirmation.
  pub record Answerable (fd : ℕ) (text : Bytes) (msg : Msg) (s : State Msg) : Type 0 where
    pub op : Operation
    pub name : lib.get_name msg ≡ name_of op
    pub call : Call
    pub space : Bytes
    pub status : ℤ
    pub payload : Option Bytes
    pub idle : List (List Event)
    pub before : List Event
    pub after : List Event
    pub rest : List (List Event)
    pub free :
        lookup (get_request_key (lib.get_nodeid msg) (lib.get_msgnumber msg)) s.requests ≡ none
    pub supported : call_of lib op msg ≡ some call
    pub taken : is_neg (env.dbus_result (s.clock + 1) call) ≡ false
    pub others :
        env.waits (s.clock + 1 + 1)
        ≡ idle
          ++ ((before
                ++ (confirmation op space
                      (lib.get_nodeid msg)
                      (lib.get_msgnumber msg)
                      status
                      payload
                    ∷ after))
              ∷ rest)
    pub quiet :
        All (All (Spares (get_request_key (lib.get_nodeid msg) (lib.get_msgnumber msg)))) idle
    pub first : All (Spares (get_request_key (lib.get_nodeid msg) (lib.get_msgnumber msg))) before
    pub later : All (Spares (get_request_key (lib.get_nodeid msg) (lib.get_msgnumber msg))) after
    pub built : built lib env op fd msg s call space status payload ≡ some text
    pub few : length text ≤ env.rounds

  -- The requests that come on a connection from here on, by the texts of their answers; then it ends.
  unfoldable pub Talks : List Bytes → Client → State Msg → Type 0
  Talks [] c s =
      Returns (λ r t. is_pos r.result ≡ false) (client_receive_message lib env c lib.new_message s)
  Talks (text ∷ texts) c s =
      Returns
        (λ r t.
          (is_pos r.result ≡ true)
          × Answerable r.client.fd text r.message t
          × Returns (λ _ u. Talks texts r.client u)
              (listener_handle_request lib env r.client.fd r.message t))
        (client_receive_message lib env c lib.new_message s)

  -- The client is in order and has its socket, which was given this, and the state is consistent.
  pub record Conversed (fd : ℕ) (sent : Bytes) (s : State Msg) (c : Client) (t : State Msg)
      : Type 0 where
    pub client : IsClient c
    pub socket : c.fd ≡ fd
    pub arrived : received fd t.trace ≡ received fd s.trace ++ sent
    pub consistent : IsConsistent t

  Conversed-both :
      (fd : ℕ) (a b : Bytes) (s t : State Msg) (c : Client) (u : State Msg)
      → received fd t.trace ≡ received fd s.trace ++ a
      → Conversed fd b t c u
      → Conversed fd (a ++ b) s c u
  Conversed-both fd a b s t c u e x = record {
    client = x.client;
    socket = x.socket;
    arrived = x.arrived ∙ ap (λ (r : Bytes). r ++ b) e ∙ append_assoc (received fd s.trace) a b;
    consistent = x.consistent;
  }

  module _ (limit : ℕ) (p : Counts lib limit) (fits : FitsBuffer env)
      (enough : limit + 2 ≤ env.rounds) (memory : (t : ℕ) → env.allocates t ≡ true) (fd : ℕ)
      (d : Delivers env fd) where
    abbrev Asks : Bytes → List Bytes → Received Msg → State Msg → Type 0
    Asks text texts r t =
        (is_pos r.result ≡ true)
        × Answerable r.client.fd text r.message t
        × Returns (λ _ u. Talks texts r.client u)
            (listener_handle_request lib env r.client.fd r.message t)

    abbrev Replied : Bytes → State Msg → State Msg → Type 0
    Replied text t u = IsConsistent u × (received fd u.trace ≡ received fd t.trace ++ text)

    -- A request that came is answered on the connection.
    answered :
        (text : Bytes) (g : ℕ) (msg : Msg) (t : State Msg)
        → g ≡ fd
        → IsConsistent t
        → Answerable g text msg t
        → Returns (λ _ u. Replied text t u) (listener_handle_request lib env g msg t)
    answered text g msg t same h a = rw (dispatched a.op g msg t a.name) (
        Returns-mono _ (λ _ u. Replied text t u) _
          (served lib env a.op g msg t a.call a.space a.status a.payload a.idle a.before a.after
            a.rest text h memory a.free a.supported a.taken a.others a.quiet a.first a.later a.built
            (subst (Delivers env) (sym same) d) a.few)
          λ _ u x. (
            x.consistent,
            subst (λ k. received k u.trace ≡ received k t.trace ++ text) same x.arrived,
          ))

    -- The thread of a connection on which requests come, one after the other, and which then ends or
    -- fails: its loop returns, the socket has been given the answers to all of them, in order, whole
    -- and nothing else, the client is in order with the same socket, and the state is consistent.
    -- It is supposed that the state is consistent before; that each request is supported, new when
    -- it comes, taken by the daemon and confirmed, and its answer can be built and has at most as
    -- many bytes as rounds are watched; that memory does not run out, and the socket has no error
    -- and takes some of whatever it is given; that the parser counts and is not in progress on more
    -- than `limit` bytes, `recv` gives no more than the buffer holds, and the receiving loop is
    -- watched for two rounds more than `limit`; and that the thread is watched for a round more
    -- than there are requests.
    pub client_rounds-Conversed :
        (texts : List Bytes) (n : ℕ) (c : Client) (s : State Msg)
        → length texts + 1 ≤ n
        → IsClient c
        → IsConsistent s
        → c.fd ≡ fd
        → Talks texts c s
        → Returns (Conversed fd (concat texts) s) (client_rounds lib env n c s)
    unfolding client_rounds Talks concat
    client_rounds-Conversed texts zero c s few h k same talks = absurd (omega (arith, few))
    client_rounds-Conversed [] (suc n) c s few h k same talks =
        Returns-continue
          (λ r t. IsReceived p.text env (unread c h) c s r t × (is_pos r.result ≡ false))
          (Conversed fd [] s) _ _
          (Returns-both (IsReceived p.text env (unread c h) c s) (λ r t. is_pos r.result ≡ false) _
            (client_receive_message-IsReceived lib env limit p fits c s h enough) talks)
          λ r t x. rw (x.1) (record {
            client = x.0.client;
            socket = x.0.fd ∙ same;
            arrived = ap (received fd) x.0.trace ∙ sym (append-nil _);
            consistent = SameShared-IsConsistent s t x.0.same k;
          })
    client_rounds-Conversed (text ∷ texts) (suc n) c s few h k same talks =
        Returns-continue (λ r t. IsReceived p.text env (unread c h) c s r t × Asks text texts r t)
          (Conversed fd (text ++ concat texts) s) _ _
          (Returns-both (IsReceived p.text env (unread c h) c s) (Asks text texts) _
            (client_receive_message-IsReceived lib env limit p fits c s h enough) talks)
          λ r t x. rw (x.1.0) (
            Returns-continue (λ _ u. Replied text t u × Talks texts r.client u)
              (Conversed fd (text ++ concat texts) s) _ _
              (Returns-both (λ _ u. Replied text t u) (λ _ u. Talks texts r.client u) _
                (answered text r.client.fd r.message t (x.0.fd ∙ same)
                  (SameShared-IsConsistent s t x.0.same k) x.1.1)
                x.1.2)
              λ _ u y.
                Returns-mono (Conversed fd (concat texts) u) (Conversed fd (text ++ concat texts) s)
                  _
                  (client_rounds-Conversed texts n r.client u (omega (arith, few)) x.0.client y.0.0
                    (x.0.fd ∙ same) y.1)
                  λ e v z.
                    Conversed-both fd text (concat texts) s u e v
                      (y.0.1 ∙ ap (λ l. received fd l ++ text) x.0.trace) z)
