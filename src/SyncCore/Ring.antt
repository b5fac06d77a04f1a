-- ===== src/SyncCore/Ring.antt =====
-- `TickSyncCore`: a frame's input stays in the frame's own slot of the ring.
use tick_synchronizer.Prelude.{
  ℕ, zero, suc, ◌+◌, ◌%◌, ◌^◌, ◌≡◌, ◌⊎◌, refl, sym, ap, ◌∙◌, subst, Bool, ◌&&◌, ◌||◌, not, List,
  Option, none, some, length, length-set, get_or, get_or-set, set, ltb, ◌==◌, inl, inr, Bool-cases,
  Option-cases, arith, if◌then◌else◌,
}
use tick_synchronizer.Prelude.Int.{pos}
use tick_synchronizer.Prelude.Maps.{lookup, insert, lookup-insert}
use tick_synchronizer.BitArray.{ByteVector}
use tick_synchronizer.DataBuffer.{TickDataBuffer, empty_buffer}
use tick_synchronizer.DataBuffer.Values.{read_bool, read_uint_bits}
use tick_synchronizer.DataBuffer.Nested.{read_data_buffer}
use tick_synchronizer.Floats.{Floats}
use tick_synchronizer.Frames.{tick_frame_none, tick_frame_after}
use tick_synchronizer.SyncCore.{
  InputRecord, no_input, Stats, PeerState, receive_input, receive_copies, receive_groups,
  acknowledge, read_inputs, server_handle_peer_inputs, server_handle_inputs, TickSyncCore,
  tick_max_input_frames, take_token,
}
use tick_synchronizer.SyncCore.Inputs.{is_taken, receive_input_lem}

-- The ring has the slots of the history, and a frame is kept in its own slot.
unfoldable pub IsRing : ℕ → List InputRecord → Type 0
IsRing size inputs =
    (length inputs ≡ size)
    × ((i : ℕ)
        → ((get_or inputs i no_input).frame ≡ tick_frame_none)
          ⊎ ((get_or inputs i no_input).frame % size ≡ i))

set-IsRing :
    (size frame : ℕ) (input : TickDataBuffer) (inputs : List InputRecord)
    → IsRing size inputs
    → IsRing size (set inputs (frame % size) (record { frame = frame; input = input }))
unfolding IsRing
set-IsRing size frame input inputs h = (
  length-set inputs (frame % size) (record { frame = frame; input = input }) ∙ h.0,
  λ i.
      rw (get_or-set inputs (frame % size) i (record { frame = frame; input = input }) no_input)
        (elim (Bool-cases (frame % size == i && ltb i (length inputs))) [
          | inl e ↦ let own : frame % size ≡ i = ground arith in rw e (inr own)
          | inr e ↦ rw e (h.1 i)
        ]),
)

abbrev in_option : {A : Type 0} → A → Option A → A
in_option x none = x
in_option x (some y) = y

module _ {f : Floats} where
  receive_input-IsRing :
      (size current frame : ℕ) (input : TickDataBuffer) (stats : Stats) (peer : PeerState f)
      → IsRing size peer.inputs
      → IsRing size (receive_input size current frame input stats peer).1.inputs
  receive_input-IsRing size current frame input stats peer h =
      let changed = receive_input_lem size current frame input stats peer in
      rw (changed.0) (elim (Bool-cases (is_taken size current frame peer)) [
        | inl e ↦ rw e (set-IsRing size frame input peer.inputs h)
        | inr e ↦ rw e h
      ])

  receive_copies-IsRing :
      (size current first copies : ℕ) (input : TickDataBuffer) (index : ℕ) (stats : Stats)
      (peer : PeerState f)
      → IsRing size peer.inputs
      → IsRing size (receive_copies size current first copies input index stats peer).1.inputs
  unfolding receive_copies
  receive_copies-IsRing size current first zero input index stats peer h = h
  receive_copies-IsRing size current first (suc copies) input index stats peer h =
      let received = receive_input size current ((first + index) % 2 ^ 32) input stats peer in
      receive_copies-IsRing size current first copies input (index + 1) received.0 received.1
        (receive_input-IsRing size current ((first + index) % 2 ^ 32) input stats peer h)

  receive_groups-IsRing :
      (v : ByteVector) (size current first groups : ℕ) (message : TickDataBuffer) (index : ℕ)
      (stats : Stats) (peer : PeerState f)
      → IsRing size peer.inputs
      → IsRing size (receive_groups v size current first groups message index stats peer).1.inputs
  unfolding receive_groups
  receive_groups-IsRing v size current first zero message index stats peer h = h
  receive_groups-IsRing v size current first (suc groups) message index stats peer h =
      let duplicates = read_uint_bits message (pos 8) in
      let nested = read_data_buffer v duplicates.0 empty_buffer in
      let received =
        receive_copies size current first (duplicates.1 + 1) nested.1 index stats peer in
      elim (Bool-cases
        (nested.0.buffer_failed || ltb tick_max_input_frames (index + duplicates.1 + 1))) [
          | inl e ↦ rw e h
          | inr e ↦ rw e (
              receive_groups-IsRing v size current first groups nested.0 (index + duplicates.1 + 1)
                received.0 received.1
                (receive_copies-IsRing size current first (duplicates.1 + 1) nested.1 index stats
                  peer h))
        ]

  acknowledge-inputs :
      (ack : ℕ) (wants_full : Bool) (now : ℕ) (peer : PeerState f)
      → (acknowledge ack wants_full now peer).inputs ≡ peer.inputs
  unfolding acknowledge
  acknowledge-inputs ack wants_full now peer =
      let is_newer =
        not (ack == tick_frame_none)
        && (peer.acked_snapshot == tick_frame_none || tick_frame_after ack peer.acked_snapshot) in
      elim (Bool-cases is_newer) [
        | inl e ↦ rw e (elim (Bool-cases wants_full) [ inl c ↦ rw c refl | inr c ↦ rw c refl ])
        | inr e ↦ rw e (elim (Bool-cases wants_full) [ inl c ↦ rw c refl | inr c ↦ rw c refl ])
      ]

  read_inputs-IsRing :
      (v : ByteVector) (core : TickSyncCore f) (message : TickDataBuffer) (stats : Stats)
      (peer : PeerState f)
      → IsRing core.settings.history_size peer.inputs
      → IsRing core.settings.history_size (read_inputs v core message stats peer).1.inputs
  unfolding read_inputs
  read_inputs-IsRing v core message stats peer h =
      let ack = read_uint_bits message (pos 32) in
      let wants_full = read_bool ack.0 in
      let group_count = read_uint_bits wants_full.0 (pos 8) in
      let first_frame = read_uint_bits group_count.0 (pos 32) in
      let acked = acknowledge ack.1 wants_full.1 core.now_usec peer in
      elim (Bool-cases (first_frame.0.buffer_failed || ltb tick_max_input_frames group_count.1)) [
        | inl e ↦ rw e h
        | inr e ↦ rw e (
            receive_groups-IsRing v core.settings.history_size core.stepper.next_frame_index
              first_frame.1 group_count.1 first_frame.0 0 stats acked
              (subst (IsRing core.settings.history_size)
                (sym (acknowledge-inputs ack.1 wants_full.1 core.now_usec peer)) h))
      ]

  server_handle_peer_inputs-IsRing :
      (v : ByteVector) (core : TickSyncCore f) (message : TickDataBuffer) (peer : PeerState f)
      → IsRing core.settings.history_size peer.inputs
      → IsRing core.settings.history_size (server_handle_peer_inputs v core message peer).1.inputs
  unfolding server_handle_peer_inputs
  server_handle_peer_inputs-IsRing v core message peer h =
      let limit =
        take_token f peer.input_limiter (f.of_nat core.settings.max_input_packets_per_second)
          core.now_usec in
      elim (Bool-cases core.settings.trusted) [
        | inl e ↦ rw e (read_inputs-IsRing v core message core.stats peer h)
        | inr e ↦ rw e (elim (Bool-cases limit.1) [
          | inr c ↦ rw c h
          | inl c ↦ rw c (
              read_inputs-IsRing v core message core.stats (record peer { input_limiter = limit.0 })
                h)
        ])
      ]

  unfoldable pub HasRings : TickSyncCore f → Type 0
  HasRings core =
      (p : ℕ) (peer : PeerState f)
      → lookup p core.peers ≡ some peer
      → IsRing core.settings.history_size peer.inputs

  pub store-HasRings :
      (core : TickSyncCore f) (p : ℕ) (peer : PeerState f) (stats : Stats)
      → HasRings core
      → IsRing core.settings.history_size peer.inputs
      → HasRings (record core { stats = stats; peers = insert p peer core.peers })
  unfolding HasRings
  store-HasRings core p peer stats h kept q peer' found = elim (Bool-cases (p == q)) [
    | inl same ↦
        let stored : some peer ≡ some peer' =
          sym (lookup-insert q p peer core.peers ∙ rw same refl) ∙ found in
        subst (λ x. IsRing core.settings.history_size x.inputs) (ap (in_option peer) stored) kept
    | inr other ↦ h q peer' (sym (lookup-insert q p peer core.peers ∙ rw other refl) ∙ found)
  ]

  -- Any message of inputs from any peer, read well or not, leaves every peer's ring of inputs with
  -- as many slots as the history, and with each input in the slot of its own frame, if they were
  -- so.
  pub server_handle_inputs-HasRings :
      (v : ByteVector) (core : TickSyncCore f) (p : ℕ) (message : TickDataBuffer)
      → HasRings core
      → HasRings (server_handle_inputs v core p message)
  unfolding server_handle_inputs HasRings
  server_handle_inputs-HasRings v core p message h = elim (Option-cases (lookup p core.peers)) [
    | inl e ↦ rw (e, server_handle_inputs) h
    | inr (peer, e) ↦
        let handled = server_handle_peer_inputs v core message peer in
        let new = record core { stats = handled.0; peers = insert p handled.1 core.peers } in
        let stored : HasRings new =
          store-HasRings core p handled.1 handled.0 h
            (server_handle_peer_inputs-IsRing v core message peer (h p peer e)) in
        let either : HasRings (if not peer.accepted then core else new) =
          elim (Bool-cases peer.accepted) [
            | inl c ↦ subst (λ b. HasRings (if not b then core else new)) (sym c) stored
            | inr c ↦ subst (λ b. HasRings (if not b then core else new)) (sym c) h
          ] in
        rw (e, server_handle_inputs) either
  ]
