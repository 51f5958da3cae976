-- ===== src/Server/Sending.antt =====
-- SendToClient of server/internal/server/server.go: its room on the stack, and a write that fails.
use data_loom.Common.{
  ℕ, suc, String, ◌≡◌, refl, sym, subst, inl, inr, none, some, [], ◌∷◌, ◌++◌, arith, done, panic,
  Option-cases,
}
use data_loom.Logging.{unlocked}
use data_loom.Network.{
  Client, Outbound, SocketError, close_error, syntax_error, type_error, other_error, WriteJson,
  send_json, written, Net,
}
use data_loom.TopicManager.Methods.{unsubscribe_all}
use data_loom.TopicManager.Valid.{view, IsValid}
use data_loom.TopicManager.Spec
use data_loom.TopicManager.Refinement.{Refines}
use data_loom.TopicManager.UnsubscribeAll.{unsubscribe_all_refines}
use data_loom.Server.{Server, send_to_client, handle_socket_error, mark_client_failed}

-- Writing JSON fails with an error of the connection, never with one of decoding.
abbrev pub IsDecodeError : SocketError → Type 0
IsDecodeError (syntax_error text) = Unit
IsDecodeError (type_error text) = Unit
IsDecodeError (close_error code text) = ⊥
IsDecodeError (other_error text) = ⊥

abbrev pub WritesOnly : WriteJson → Type 0
WritesOnly wj =
    (net : Net) (c : Client) (m : Outbound) (e : SocketError)
    → wj net c m ≡ some e
    → ¬ IsDecodeError e

abbrev pub nil_map : String
nil_map = "assignment to entry in nil map"

module _ {S : Type 0} (wj : WriteJson) where
  -- The state after one more write.
  abbrev pub after_write : Client → Outbound → Server S → Server S
  after_write c m s = record s {
    world = record s.world { net = s.world.net ++ written wj c m s.world.net ∷ [] };
  }

  -- A write that succeeds is all there is.
  pub send_succeeds :
      (n : ℕ) (c : Client) (m : Outbound) (s : Server S)
      → wj s.world.net c m ≡ none
      → send_to_client wj (suc n) c m s ≡ done tt (after_write c m s)
  unfolding send_to_client send_json
  send_succeeds n c m s e = ground (arith, e)

  error_depth :
      (n k : ℕ) (e : SocketError) (c : Client) (s : Server S)
      → ¬ IsDecodeError e
      → handle_socket_error wj (send_to_client wj n) e c s
        ≡ handle_socket_error wj (send_to_client wj k) e c s
  unfolding handle_socket_error
  error_depth n k (close_error code text) c s h = refl
  error_depth n k (other_error text) c s h = refl
  error_depth n k (syntax_error text) c s h = absurd (h tt)
  error_depth n k (type_error text) c s h = absurd (h tt)

  -- Where writes never fail with an error of decoding, SendToClient does not call itself again: any
  -- room on the stack gives what room for one call gives.
  pub send_depth :
      (n : ℕ) (c : Client) (m : Outbound) (s : Server S)
      → WritesOnly wj
      → send_to_client wj (suc n) c m s ≡ send_to_client wj 1 c m s
  unfolding send_to_client send_json
  send_depth n c m s h = elim (Option-cases (wj s.world.net c m)) [
    | inl e ↦ ground (arith, e)
    | inr (x, e) ↦ ground (arith, e, error_depth n 0 x c (after_write c m s) (h _ c m x e))
  ]

  -- A claim about a server whose lock is free and whose map of failed clients is nil.
  with_nil :
      (P : Server S → Type 0) (s : Server S)
      → s.mu ≡ unlocked
      → s.failed_clients ≡ none
      → P (record s { mu = unlocked; failed_clients = none })
      → P s
  with_nil P s e f h = subst P (λ i. record s { mu = sym e i; failed_clients = sym f i }) h

  -- Counting a failure panics while the map of failed clients is nil; the lock is released.
  pub mark_client_failed_panics :
      (c : Client) (s : Server S)
      → s.mu ≡ unlocked
      → s.failed_clients ≡ none
      → mark_client_failed c s ≡ panic nil_map s
  unfolding mark_client_failed
  mark_client_failed_panics c s e f =
      with_nil (λ x. mark_client_failed c x ≡ panic nil_map x) s e f refl

  module _ (n : ℕ) (c : Client) (m : Outbound) (s : Server S) (code : ℕ) (text : String)
      (v : IsValid s.world.tm) (free : s.mu ≡ unlocked) (unmade : s.failed_clients ≡ none)
      (closed : wj s.world.net c m ≡ some (close_error code text)) where
    abbrev swept : Refines (unsubscribe_all c) s.world.tm (Spec.unsubscribe_all c (view s.world.tm))
    swept = unsubscribe_all_refines s.world.tm c v

    abbrev after_close : Server S
    after_close = record s {
      world = record s.world {
        tm = swept.after;
        net = s.world.net ++ written wj c m s.world.net ∷ [];
      };
    }

    send_closed_lem : send_to_client wj (suc n) c m s ≡ panic nil_map after_close
    unfolding send_to_client send_json
    send_closed_lem =
        ground (arith, closed, swept.returns, mark_client_failed_panics c after_close free unmade)

    -- From a server with its manager in order, its lock free and its map of failed clients still
    -- nil, where the write fails because the connection was closed: SendToClient takes the client
    -- from every topic and then panics, since the failure is counted in a nil map. The lock is
    -- released, the manager is in order, and the hub still has the client.
    pub send_to_closed_panics :
        (s' : Server S) × (send_to_client wj (suc n) c m s ≡ panic nil_map s')
        × ((x : String) → view s'.world.tm x ≡ (Spec.unsubscribe_all c (view s.world.tm)).1 x)
        × IsValid s'.world.tm
        × (s'.mu ≡ unlocked)
        × (s'.hub ≡ s.hub)
    send_to_closed_panics = (after_close, send_closed_lem, swept.sees, swept.valid, free, refl)
