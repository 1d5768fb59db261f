-- ===== src/Network/Connection/Laws.antt =====
-- Who is let in, and what a conversation leaves behind.
use equiforge.Prelude.{
  ℕ, ◌≤◌, ◌≡◌, ◌↔◌, refl, arith, true, false, Bool-cases, inl, inr, List, [], ◌∷◌, Bytes, Option,
  Option-cases, none, some, bytes_eq_iff, ok, err, ◌⊎◌, bytes_instance,
}
use equiforge.Prelude.Maps.{get, get-remove}
use equiforge.Params.Peers.{min_protocol_version}
use equiforge.Chain.State.{Env}
use equiforge.Network.Peers.{is_banned}
use equiforge.Network.Message.{version_v2}
use equiforge.Network.Node.{NodeState}
use equiforge.Network.Relay.Laws.{HasRoom}
use equiforge.Network.Sync.Laws.{on_pong-pending}
use equiforge.Network.Handler.Laws.{handle_message-HasRoom}
use equiforge.Network.Connection.{
  Received, Event, received, read_timeout, block_announced, transaction_announced, exchange_due,
  keepalive_due, Flow, goes_on, ends, panics, our_genesis, greet, shake_hands, announce, on_event,
  forget_peer, converse,
}

module _ {F S : Type 0} (env : Env F S) where
  -- The peer says a version that is new enough, and our genesis block.
  abbrev pub IsWelcome : Received → NodeState F S → Type 0
  IsWelcome (ok (version_v2 v best_height best_hash genesis timestamp port)) node =
      (min_protocol_version ≤ v) × (genesis ≡ our_genesis env node)
  IsWelcome _ node = ⊥

  greet_sound :
      (now : ℕ) (peer : Bytes) (first : Received) (node : NodeState F S) (h : ℕ)
      → (greet env now peer first node).0 ≡ some h
      → IsWelcome first node
  unfolding greet
  greet_sound now peer (ok (version_v2 v best_height best_hash genesis timestamp port)) node h e =
      ground (arith, bytes_eq_iff genesis (our_genesis env node))
  greet_sound now peer first node h e = absurd (cc)

  greet_lets_in :
      (now : ℕ) (peer : Bytes) (first : Received) (node : NodeState F S)
      → IsWelcome first node
      → (h : ℕ) × ((greet env now peer first node).0 ≡ some h)
  unfolding greet
  greet_lets_in now peer (ok (version_v2 v best_height best_hash genesis timestamp port)) node w =
      (best_height, ground (arith, bytes_eq_iff genesis (our_genesis env node)))
  greet_lets_in now peer first node w = elim w [ ]

  on_event-HasRoom :
      (now : ℕ) (peer : Bytes) (event : Event) (node : NodeState F S)
      → HasRoom env node
      → HasRoom env (on_event env now peer event node).2
  unfolding on_event
  on_event-HasRoom now peer (received (ok m)) node room =
      handle_message-HasRoom env now peer m node room
  on_event-HasRoom now peer (received (err e)) node room = room
  on_event-HasRoom now peer read_timeout node room = room
  on_event-HasRoom now peer (block_announced block) node room =
      elim (Option-cases (announce env block)) [
        | inl empty ↦ rw (on_event, empty) room
        | inr (m, made) ↦ rw (on_event, made) room
      ]
  on_event-HasRoom now peer (transaction_announced tx) node room = room
  on_event-HasRoom now peer exchange_due node room = room
  on_event-HasRoom now peer keepalive_due node room = rw (on_pong-pending env now peer node) room

  Flow-cases : (f : Flow) → (f ≡ goes_on) ⊎ (f ≡ ends) ⊎ (f ≡ panics)
  Flow-cases goes_on = inl refl
  Flow-cases ends = inr (inl refl)
  Flow-cases panics = inr (inr refl)

  -- Whatever happens on a connection, no more than 50 compact blocks wait for transactions
  -- afterwards, if no more did before; and when the conversation has ended, but not in a panic,
  -- the peer is forgotten.
  pub converse_leaves :
      (peer : Bytes) (events : List (ℕ × Event)) (node : NodeState F S)
      → HasRoom env node
      → HasRoom env (converse env peer events node).2
        × ((converse env peer events node).0 ≡ ends
            → get (converse env peer events node).2.peers peer ≡ none)
  unfolding converse forget_peer
  converse_leaves peer [] node room = (room, λ e. absurd (cc))
  converse_leaves peer ((now, event) ∷ events) node room =
      let node' = (on_event env now peer event node).2 in
      let room' = on_event-HasRoom now peer event node room in
      elim (Flow-cases (on_event env now peer event node).0) [
        | inl more ↦ rw (converse, more) (converse_leaves peer events node' room')
        | inr (inl over) ↦
            rw (converse, over)
              (room', λ e. ground (arith, get-remove peer peer node'.peers, bytes_eq_iff peer peer))
        | inr (inr broken) ↦ rw (converse, broken) (room', λ e. absurd (cc))
      ]

  -- The loop is entered exactly for a peer that is not banned, and whose first message is the
  -- version message of now, with a protocol version of 4 or more and our genesis block.
  pub shake_hands_iff :
      (now : ℕ) (peer : Bytes) (first : Received) (second : Option Received) (node : NodeState F S)
      → ((shake_hands env now peer first second node).0 ≡ true)
        ↔ ((is_banned now peer node.scoreboard ≡ false) × IsWelcome first node)
  unfolding shake_hands
  shake_hands_iff now peer first second node =
      elim (Bool-cases (is_banned now peer node.scoreboard)) [
        | inl banned ↦ (λ e. absurd (ground arith), λ w. absurd (cc))
        | inr free ↦ elim (Option-cases (greet env now peer first node).0) [
          | inl refused ↦ (
            λ e. absurd (ground arith),
            λ w. let (h, e) = greet_lets_in now peer first node w.1 in absurd (cc),
          )
          | inr (h, greeted) ↦ (
            λ e. (free, greet_sound now peer first node h greeted),
            λ w. rw (shake_hands, free, greeted) refl,
          )
        ]
      ]
