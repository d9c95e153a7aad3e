-- ===== src/Dhash/Announce.antt =====
-- What becomes of a file that came in (`receive_success` of file_client/process.cpp), and the pushes of
-- file_client/send.cpp.
use tangent.Base.{
  ℕ, ◌+◌, ◌≤◌, ◌≡◌, inl, inr, refl, sym, ap, ◌∙◌, Bool, true, false, Option, none, some, List, [],
  ◌∷◌, ◌++◌, length, length-append, All, All-append, Bool-cases, arith, append_assoc, append-nil,
  leb, subst, if◌then◌else◌,
}
use mathlib.Core.Option.{some-injective, none-ne-some}
use tangent.Base.Bind.{bind-some}
use tangent.Id.{ChordId}
use tangent.Crypt.{Crypto, get_data_id}
use tangent.Server.{In6Addr, ChordServer}
use tangent.Server.Addr.{is_addr_unspecified}
use tangent.Send.{send_data}
use tangent.Process.Route.{next_route_node}
use tangent.Text.{buf_to_str}
use tangent.Dhash.{
  Library, Transfer, Dhash, Effect, effect, chord_sent, control_written, transfer_freed,
  receive_success, dhash_client_reply_success, dhash_pack_control_request_reply,
}
use tangent.Dhash.Send.{send_towards, send_all, dhash_send_push, dhash_send_control_packet}
use tangent.Dhash.Transfers.{free_transfer}
use tangent.Dhash.Handlers.{is_signed, verified, received, run_event}

-- A data packet for an identifier, with ten hops to go.
pub data IsDataTo (id : ChordId) : Effect → Type 0 where
  is_data_to :
      (i : ℕ) (addr : In6Addr) (port : ℕ) (last : Bool) (buf : List ℕ)
      → IsDataTo id (chord_sent i (send_data addr port last 10 id buf))

-- The effects that a step added to a client that it left alone otherwise.
pub record Adds (w v : Dhash) (es : List Effect) : Type 0 where
  pub same_servers : v.servers ≡ w.servers
  pub same_path : v.files_path ≡ w.files_path
  pub added : v.effects ≡ w.effects ++ es

Adds-trans : {u v w : Dhash} (es fs : List Effect) → Adds u v es → Adds v w fs → Adds u w (es ++ fs)
Adds-trans {u = u} es fs a b = record {
  same_servers = b.same_servers ∙ a.same_servers;
  same_path = b.same_path ∙ a.same_path;
  added = b.added ∙ ap (λ x. x ++ fs) a.added ∙ append_assoc u.effects es fs;
}

-- What a loop over servers sent: at most a packet for each.
pub record Pushed (id : ChordId) (w v : Dhash) (servers : ℕ) : Type 0 where
  pub packets : List Effect
  pub adds : Adds w v packets
  pub addressed : All (IsDataTo id) packets
  pub few : length packets ≤ servers

send_towards-Pushed :
    (i : ℕ) (srv : ChordServer) (id : ChordId) (buf : List ℕ) (w : Dhash)
    → Pushed id w (send_towards i srv id buf w) 1
unfolding send_towards
send_towards-Pushed i srv id buf w =
    elim (Bool-cases (is_addr_unspecified (next_route_node srv id false).0.addr)) [
      | inl off ↦
          rw (off, send_towards)
            (record {
              packets = [];
              adds = record {
                same_servers = refl;
                same_path = refl;
                added = sym (append-nil w.effects);
              };
              addressed = tt;
              few = omega arith;
            })
      | inr on ↦
          rw (on, send_towards)
            (record {
              packets =
                  chord_sent i (
                    send_data (next_route_node srv id false).0.addr
                      (next_route_node srv id false).0.port (next_route_node srv id false).1 10 id
                      buf)
                  ∷ [];
              adds = record { same_servers = refl; same_path = refl; added = refl };
              addressed = (is_data_to i _ _ _ buf, tt);
              few = omega arith;
            })
    ]

send_all-Pushed :
    (pack : In6Addr → ℕ → Option (List ℕ)) (id : ChordId) (i : ℕ) (srvs : List ChordServer)
    (w v : Dhash)
    → send_all pack id i srvs w ≡ some v
    → Pushed id w v (length srvs)
unfolding send_all
send_all-Pushed pack id i [] w v e =
    let same : v ≡ w = sym (some-injective w v e) in
    record {
      packets = [];
      adds = record {
        same_servers = ap (λ x. x.servers) same;
        same_path = ap (λ x. x.files_path) same;
        added = ap (λ x. x.effects) same ∙ sym (append-nil w.effects);
      };
      addressed = tt;
      few = omega arith;
    }
send_all-Pushed pack id i (srv ∷ srvs) w v e =
    let (buf, packed, rest) = bind-some (pack srv.node.addr srv.node.port) _ v e in
    let one = send_towards-Pushed i srv id buf w in
    let more = send_all-Pushed pack id (i + 1) srvs (send_towards i srv id buf w) v rest in
    record {
      packets = one.packets ++ more.packets;
      adds = Adds-trans one.packets more.packets one.adds more.adds;
      addressed = All-append (IsDataTo id) one.packets more.packets one.addressed more.addressed;
      few = omega (arith, length-append one.packets more.packets, one.few, more.few);
    }

opened :
    (b : Bool) (o : Option Dhash) (v : Dhash)
    → (if b then o else none) ≡ some v
    → (b ≡ true) × (o ≡ some v)
opened true o v e = (refl, e)
opened false o v e = absurd (none-ne-some v e)

behind :
    (es ps : List Effect) (c f : Effect)
    → (((es ++ (c ∷ [])) ++ ps) ++ (f ∷ [])) ≡ es ++ (c ∷ ps) ++ (f ∷ [])
behind es ps c f = simp append_assoc refl

-- The outcome for a transfer whose file came in.
pub data IsAnnounced (cr : Crypto) (lib : Library) (trans : Transfer) (file : List ℕ) (w : Dhash)
    : Dhash → Type 0 where
  ignored :
      is_signed cr lib (w.files_path ++ (b'/' ∷ []) ++ file) ≡ false
      → IsAnnounced cr lib trans file w w
  announced :
      (v : Dhash) (told : List ℕ) (packets : List Effect)
      → is_signed cr lib (w.files_path ++ (b'/' ∷ []) ++ file) ≡ true
      → dhash_pack_control_request_reply lib dhash_client_reply_success file ≡ some told
      → All (IsDataTo (get_data_id cr file)) packets
      → length packets ≤ length w.servers
      → v.effects ≡ w.effects ++ (control_written told ∷ packets) ++ (transfer_freed trans ∷ [])
      → IsAnnounced cr lib trans file w v

module _ (cr : Crypto) (lib : Library) where
  dhash_send_push-Pushed :
      (name : List ℕ) (w v : Dhash)
      → dhash_send_push cr lib name w ≡ some v
      → Pushed (get_data_id cr name) w v (length w.servers)
  unfolding dhash_send_push
  dhash_send_push-Pushed name w v e =
      let (text, shown, rest) = bind-some (buf_to_str name) _ v e in
      send_all-Pushed _ (get_data_id cr name) 0 w.servers w v rest

  verified-IsAnnounced :
      (trans : Transfer) (file : List ℕ) (w v : Dhash)
      → is_signed cr lib (w.files_path ++ (b'/' ∷ []) ++ file) ≡ true
      → verified cr lib trans file w ≡ some v
      → IsAnnounced cr lib trans file w v
  unfolding verified dhash_send_control_packet free_transfer
  verified-IsAnnounced trans file w v signed e =
      let (told, was_told, rest) =
        bind-some (dhash_send_control_packet lib dhash_client_reply_success file w) _ v e in
      let (buf, packed, same) =
        bind-some (dhash_pack_control_request_reply lib dhash_client_reply_success file) _ told
          was_told in
      let (pushed, was_pushed, last) = bind-some (dhash_send_push cr lib file told) _ v rest in
      let p = dhash_send_push-Pushed file told pushed was_pushed in
      let told_is : told ≡ effect (control_written buf) w = sym (some-injective _ _ same) in
      let freed : v ≡ effect (transfer_freed trans) pushed = sym (some-injective _ _ last) in
      announced v buf p.packets signed packed p.addressed
        (subst (λ x. length p.packets ≤ length x.servers) told_is p.few)
        (ap (λ x. x.effects) freed
          ∙ ap (λ x. x ++ (transfer_freed trans ∷ []))
              (p.adds.added ∙ ap (λ x. x.effects ++ p.packets) told_is)
          ∙ behind w.effects p.packets (control_written buf) (transfer_freed trans))

  -- A transfer whose file came in, where the handler does not fault: if the file is not signed, nothing
  -- happens, and the transfer is not freed; if it is, the control socket gets the success, then at most
  -- one packet for each server goes towards the hash of the name, and the transfer is freed last.
  pub run_event-IsAnnounced :
      (trans : Transfer) (file : List ℕ) (w v : Dhash)
      → trans.file ≡ some file
      → run_event cr lib receive_success trans w ≡ some v
      → IsAnnounced cr lib trans file w v
  unfolding run_event received
  run_event-IsAnnounced trans file w v named e =
      let (read, was_read, ran) = bind-some trans.file (λ x. received cr lib trans x w) v e in
      let same : read ≡ file = some-injective read file (sym was_read ∙ named) in
      let came : received cr lib trans file w ≡ some v =
        subst (λ x. received cr lib trans x w ≡ some v) same ran in
      let (fits, rest) = opened (leb (length w.files_path + length file + 2) 1024) _ v came in
      elim (Bool-cases (is_signed cr lib (w.files_path ++ (b'/' ∷ []) ++ file))) [
        | inl signed ↦ verified-IsAnnounced trans file w v signed (rw signed at rest)
        | inr unsigned ↦
            let kept : some w ≡ some v = rw unsigned at rest in
            subst (λ x. IsAnnounced cr lib trans file w x) (some-injective w v kept)
              (ignored unsigned)
      ]
