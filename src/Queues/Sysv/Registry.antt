-- ===== src/Queues/Sysv/Registry.antt =====
-- The clients that the System V server has accepted, and where its replies go.
use systemy_operacyjne_c.Base.{
  All, ℕ, suc, ◌+◌, ◌≤◌, ◌<◌, ◌≡◌, ◌≢◌, ◌⊎◌, inl, inr, dec_lt, refl, ◌∙◌, sym, ap, some, List, [],
  ◌∷◌, ◌++◌, append-nil, append_assoc, map, arith, length, drop, get_elem?, set, length-set,
  get_elem?-set_self, get_elem?-set_ne,
}
use systemy_operacyjne_c.Base.Int.{ℤ, pos}
use systemy_operacyjne_c.Queues.Message.{
  Msg, MsgType, client_request, server_accept, server_denies, server_response, service_echo,
  service_upper, service_term, Effect, sent, Outcome, continues, exits, out_of_bounds, max_clients,
}
use systemy_operacyjne_c.Queues.Text.{
  to_upper, upper_case_f-terminated, c_string-terminated, upper_ne_zero,
}
use systemy_operacyjne_c.Queues.Sysv.Server.{
  Server, msg_rcv, Run, idle, stopped, crashed, after, serve,
}
use systemy_operacyjne_c.Queues.Sysv.Client
use systemy_operacyjne_c.Queues.Sysv.Client.{
  Client, Command, echo, upper, typed, msg_snd, asks, prints,
}

pub record IsValid (s : Server) : Type 0 where
  pub slots : length s.clients_queue_ids ≡ max_clients
  pub counted : s.clients_counter ≤ max_clients

-- What a server keeps: it forgets no client, and no client's queue.
pub record Extends (s t : Server) : Type 0 where
  pub valid : IsValid t
  pub more : s.clients_counter ≤ t.clients_counter
  pub kept :
      (i : ℕ)
      → i < s.clients_counter
      → get_elem? t.clients_queue_ids i ≡ get_elem? s.clients_queue_ids i

stopped≢idle : {es fs : List Effect} {msgs : List Msg} {t : Server} → stopped es msgs ≢ idle t fs
stopped≢idle e = cc

crashed≢idle : {fs : List Effect} {t : Server} → crashed ≢ idle t fs
crashed≢idle e = cc

idle_of_after :
    (fs : List Effect) (r : Run) (t : Server) (es : List Effect)
    → after fs r ≡ idle t es
    → (gs : List Effect) × (r ≡ idle t gs) × (es ≡ fs ++ gs)
idle_of_after fs (idle s gs) t es e = (gs, ground (arith, e), ground (arith, e))
idle_of_after fs (stopped gs unread) t es e = absurd (stopped≢idle e)
idle_of_after fs crashed t es e = absurd (crashed≢idle e)

after_nil : (r : Run) → after [] r ≡ r
after_nil (idle s es) = refl
after_nil (stopped es unread) = refl
after_nil crashed = refl

after-after : (es fs : List Effect) (r : Run) → after es (after fs r) ≡ after (es ++ fs) r
after-after es fs (idle s gs) = ap (idle s) (sym (append_assoc es fs gs))
after-after es fs (stopped gs unread) = ap (λ hs. stopped hs unread) (sym (append_assoc es fs gs))
after-after es fs crashed = refl

Extends-trans : {s t u : Server} → Extends s t → Extends t u → Extends s u
Extends-trans e f = record {
  valid = f.valid;
  more = omega arith;
  kept = λ i h. f.kept i (omega arith) ∙ e.kept i h;
}

module _ (time_text : List ℕ → List ℕ) where
  msg_rcv-Extends :
      (s : Server) (msg : Msg) {t : Server} {es : List Effect}
      → IsValid s
      → msg_rcv time_text s msg ≡ continues t es
      → Extends s t
  unfolding msg_rcv
  msg_rcv-Extends s msg v e = record {
    valid = ground (arith, length-set s.clients_queue_ids s.clients_counter msg.client_queue_id);
    more = ground arith;
    kept = λ i h. ground (
      arith,
      get_elem?-set_ne s.clients_queue_ids {i = s.clients_counter} {j = i} msg.client_queue_id,
    );
  }

  first_served :
      (o : Outcome Server) (msgs : List Msg) (t : Server) (es : List Effect)
      → elim o [
        | continues s' effects ↦ after effects (serve time_text s' msgs)
        | exits ↦ stopped [] msgs
        | out_of_bounds ↦ crashed
      ]
        ≡ idle t es
      → (s' : Server) × (fs gs : List Effect) × (o ≡ continues s' fs)
        × (serve time_text s' msgs ≡ idle t gs)
        × (es ≡ fs ++ gs)
  first_served (continues s' fs) msgs t es e =
      let (gs, f, g) = idle_of_after fs (serve time_text s' msgs) t es e in (s', fs, gs, refl, f, g)
  first_served exits msgs t es e = absurd (stopped≢idle e)
  first_served out_of_bounds msgs t es e = absurd (crashed≢idle e)

  serve-Extends :
      (msgs : List Msg) (s : Server) {t : Server} {es : List Effect}
      → IsValid s
      → serve time_text s msgs ≡ idle t es
      → Extends s t
  unfolding serve
  serve-Extends [] s v e = record {
    valid = ground (arith, e);
    more = ground (arith, e);
    kept = λ i h. ground (arith, e);
  }
  serve-Extends (msg ∷ msgs) s {t} {es} v e =
      let (s', fs, gs, now, later, _) = first_served (msg_rcv time_text s msg) msgs t es e in
      let one = msg_rcv-Extends s msg v now in
      Extends-trans one (serve-Extends msgs s' one.valid later)

  -- On a valid table, a client that is let in gets the number of those before it, and is told so on its own queue;
  -- when four are in, every other one is told that it is refused, and the server is unchanged.
  pub request_lem :
      (s : Server) (msg : Msg)
      → IsValid s
      → msg.mtype ≡ client_request
      → ((s.clients_counter < max_clients)
          × (t : Server) × (msg_rcv time_text s msg
              ≡ continues t (
                  sent msg.client_queue_id
                    (record msg { mtype = server_accept; client_id = pos s.clients_counter })
                  ∷ []))
          × (t.clients_counter ≡ s.clients_counter + 1)
          × (get_elem? t.clients_queue_ids s.clients_counter ≡ some msg.client_queue_id))
        ⊎ ((s.clients_counter ≡ max_clients)
            × (msg_rcv time_text s msg
                ≡ continues s
                    (sent msg.client_queue_id (record msg { mtype = server_denies }) ∷ [])))
  unfolding msg_rcv
  request_lem s msg v e = elim (dec_lt s.clients_counter max_clients) [
    | yes room ↦ inl (
      room,
      record s {
        clients_queue_ids = set s.clients_queue_ids s.clients_counter msg.client_queue_id;
        clients_counter = s.clients_counter + 1;
      },
      ground arith,
      refl,
      get_elem?-set_self s.clients_queue_ids s.clients_counter msg.client_queue_id (omega arith),
    )
    | no full ↦ inr (omega arith, ground arith)
  ]

  -- A reply goes home: after any messages that the server serves, a request for an echo from a
  -- client that was let in before them is answered on that client's own queue, with its text.
  pub reply_goes_home :
      (s t : Server) (hello ask : Msg) (msgs : List Msg) {s' : Server} {es fs : List Effect}
      → IsValid s
      → s.clients_counter < max_clients
      → hello.mtype ≡ client_request
      → msg_rcv time_text s hello ≡ continues s' es
      → serve time_text s' msgs ≡ idle t fs
      → ask.mtype ≡ service_echo
      → ask.client_id ≡ pos s.clients_counter
      → msg_rcv time_text t ask
        ≡ continues t (sent hello.client_queue_id (record ask { mtype = server_response }) ∷ [])
  unfolding msg_rcv
  reply_goes_home s t hello ask msgs {s'} v room is_request let_in served is_echo own =
      answered (kept s.clients_counter (omega (arith, placed.0)) ∙ placed.1)
    where
      one : Extends s s'
      one = msg_rcv-Extends s hello v let_in

      open (serve-Extends msgs s' one.valid served) use {kept}

      placed :
          (s'.clients_counter ≡ s.clients_counter + 1)
          × (get_elem? s'.clients_queue_ids s.clients_counter ≡ some hello.client_queue_id)
      placed =
          ground
            (arith, get_elem?-set_self s.clients_queue_ids s.clients_counter hello.client_queue_id)

      answered :
          get_elem? t.clients_queue_ids s.clients_counter ≡ some hello.client_queue_id
          → msg_rcv time_text t ask
            ≡ continues t (sent hello.client_queue_id (record ask { mtype = server_response }) ∷ [])
      answered found = ground arith

  -- What a registered client gets for a word of its own, which fits the buffer: `echo` prints the
  -- word, `upper` prints it in capital letters.
  pub round_trip :
      (t : Server) (c : Client) (i : ℕ) (q : ℤ) (word : List ℕ)
      → c.client_id ≡ pos i
      → get_elem? t.clients_queue_ids i ≡ some q
      → length word < length c.msg.mtext
      → All (λ b. b ≢ 0) word
      → ((c' : Client) × (m r : Msg) × (Client.command c (echo word) ≡ asks c' m)
          × (msg_rcv time_text t m ≡ continues t (sent q r ∷ []))
          × (Client.msg_rcv c' r ≡ prints c' (some word)))
        × ((c' : Client) × (m r : Msg) × (Client.command c (upper word) ≡ asks c' m)
            × (msg_rcv time_text t m ≡ continues t (sent q r ∷ []))
            × (Client.msg_rcv c' r ≡ prints c' (some (map to_upper word))))
  unfolding msg_rcv Client.command Client.msg_rcv
  round_trip t c i q word own found fits plain = (
    (
      asking service_echo,
      msg_snd (asking service_echo),
      record (msg_snd (asking service_echo)) { mtype = server_response },
      ground arith,
      ground arith,
      ground (arith, c_string-terminated word rest plain),
    ),
    (
      asking service_upper,
      msg_snd (asking service_upper),
      record (msg_snd (asking service_upper)) {
        mtype = server_response;
        mtext = map to_upper word ++ (0 ∷ rest);
      },
      ground arith,
      ground (arith, upper_case_f-terminated word rest plain),
      ground (arith, c_string-terminated (map to_upper word) rest (upper_ne_zero word plain)),
    ),
  )
    where
      rest : List ℕ
      rest = drop (suc (length word)) c.msg.mtext

      asking : MsgType → Client
      asking mtype = record c {
        msg = record (c.msg) { mtype = mtype; mtext = typed word c.msg.mtext };
      }

  serve-append :
      (msgs : List Msg) (s : Server) (more : List Msg) {t : Server} {es : List Effect}
      → serve time_text s msgs ≡ idle t es
      → serve time_text s (msgs ++ more) ≡ after es (serve time_text t more)
  unfolding serve
  serve-append [] s more {t} {es} e = ground (arith, e, after_nil (serve time_text t more))
  serve-append (msg ∷ msgs) s more {t} {es} e =
      let (s', fs, gs, now, later, both) = first_served (msg_rcv time_text s msg) msgs t es e in
      ground (
        arith,
        now,
        both,
        serve-append msgs s' more later,
        after-after fs gs (serve time_text t more),
      )

  -- The server stops at ServiceTerm: it has served what came before, and leaves unread what had
  -- arrived behind it.
  pub term_leaves_unread :
      (msgs rest : List Msg) (s : Server) (stop : Msg) {t : Server} {es : List Effect}
      → serve time_text s msgs ≡ idle t es
      → stop.mtype ≡ service_term
      → serve time_text s (msgs ++ (stop ∷ rest)) ≡ stopped es rest
  unfolding serve msg_rcv
  term_leaves_unread msgs rest s stop {t} {es} e is_term =
      serve-append msgs s (stop ∷ rest) e ∙ ground (arith, append-nil es)
