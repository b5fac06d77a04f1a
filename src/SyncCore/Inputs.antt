-- ===== src/SyncCore/Inputs.antt =====
-- `TickSyncCore`: the ring of the inputs that a client has sent, one for each frame to come.
use tick_synchronizer.Prelude.{
  ℕ, ◌+◌, ◌%◌, ◌^◌, ◌<◌, ◌≤◌, ◌≡◌, ◌≢◌, ◌∙◌, refl, false, Bool, true, ◌&&◌, ◌||◌, not, [], length,
  get_or, get_or-set, set, List, ltb, ◌==◌, inl, inr, Bool-cases, arith, if◌then◌else◌,
}
use tick_synchronizer.BitArray.{ByteVector}
use tick_synchronizer.DataBuffer.{TickDataBuffer}
use tick_synchronizer.Floats.{Floats}
use tick_synchronizer.Frames.{tick_frame_none, tick_frame_after, frames_between}
use tick_synchronizer.Prelude.Words.{of_word}
use tick_synchronizer.SyncCore.{
  InputRecord, no_input, Settings, Stats, PeerState, one_more, receive_input,
}
use tick_synchronizer.SyncCore.Resolve.{server_resolve_input, split_input}

-- The tests of `receive_input` on an input that it stores.
unfoldable pub is_taken : {f : Floats} → ℕ → ℕ → ℕ → PeerState f → Bool
is_taken ring current frame peer =
    not (tick_frame_after current frame)
    && tick_frame_after ((current + ring) % 2 ^ 32) frame
    && not ((get_or peer.inputs (frame % ring) no_input).frame == frame)

-- A slot has the input of a frame, if it is not empty: an empty one has `tick_frame_none`.
unfoldable pub has_input : {f : Floats} → ℕ → ℕ → PeerState f → Bool
has_input ring frame peer =
    let found = get_or peer.inputs (frame % ring) no_input in
    not (found.frame == tick_frame_none) && found.frame == frame

after_current :
    (current k : ℕ)
    → current < 2 ^ 32
    → k < 2 ^ 32
    → tick_frame_after current ((current + k) % 2 ^ 32) ≡ ltb (2 ^ 31) k
unfolding tick_frame_after frames_between of_word
after_current current k c h = ground arith

after_ring :
    (current k ring : ℕ)
    → current < 2 ^ 32
    → k ≤ 2 ^ 31
    → ring < 2 ^ 31
    → tick_frame_after ((current + ring) % 2 ^ 32) ((current + k) % 2 ^ 32) ≡ ltb k ring
unfolding tick_frame_after frames_between of_word
after_ring current k ring c h r = ground arith

get_or-set-same :
    (size frame : ℕ) (new : InputRecord) (inputs : List InputRecord)
    → 0 < size
    → length inputs ≡ size
    → get_or (set inputs (frame % size) new) (frame % size) no_input ≡ new
get_or-set-same size frame new inputs h l =
    let small : frame % size < length inputs = omega arith in
    let there : (frame % size == frame % size && ltb (frame % size) (length inputs)) ≡ true =
      ground arith in
    rw (get_or-set inputs (frame % size) (frame % size) new no_input, there) refl

module _ {f : Floats} where
  split_input-last :
      (v : ByteVector) (settings : Settings) (stats : Stats) (peer : PeerState f)
      → (split_input v settings stats peer).1.last_input ≡ peer.last_input
  unfolding split_input
  split_input-last v settings stats peer = elim (Bool-cases settings.trusted) [
    | inl e ↦ rw e refl
    | inr e ↦ rw e refl
  ]

  server_resolve_input-last :
      (v : ByteVector) (settings : Settings) (stats : Stats) (peer : PeerState f) (frame : ℕ)
      → (server_resolve_input v settings stats peer frame).1.last_input ≡ (
          let found = get_or peer.inputs (frame % settings.history_size) no_input in
          if found.frame == frame then found.input else peer.last_input)
  unfolding server_resolve_input
  server_resolve_input-last v settings stats peer frame =
      let found = get_or peer.inputs (frame % settings.history_size) no_input in
      elim (Bool-cases (found.frame == frame)) [
        | inl e ↦ rw e (
            split_input-last v settings stats (record peer {
              tick_inputs = [];
              last_input = found.input;
              has_last_input = true;
              inputs =
                  set peer.inputs (frame % settings.history_size)
                    (record found { frame = tick_frame_none });
            }))
        | inr e ↦ rw e (elim (Bool-cases peer.has_last_input) [
          | inl c ↦ rw c (
              split_input-last v settings
                (record stats { ghost_inputs = one_more stats.ghost_inputs })
                (record peer { tick_inputs = []; has_last_input = true }))
          | inr c ↦ rw c refl
        ])
      ]

  -- What the ring is afterwards; nothing else that the choice of an input reads changes.
  pub receive_input_lem :
      (ring current frame : ℕ) (input : TickDataBuffer) (stats : Stats) (peer : PeerState f)
      → ((receive_input ring current frame input stats peer).1.inputs ≡ (
          if is_taken ring current frame peer
          then set peer.inputs (frame % ring) (record { frame = frame; input = input })
          else peer.inputs))
        × ((receive_input ring current frame input stats peer).1.last_input ≡ peer.last_input)
  unfolding receive_input is_taken
  receive_input_lem ring current frame input stats peer =
      elim (Bool-cases (tick_frame_after current frame)) [
        | inl a ↦
            let is_new =
              (peer.last_received_frame == tick_frame_none)
              || tick_frame_after frame peer.last_received_frame in
            rw a
              (elim (Bool-cases is_new) [ inl c ↦ rw c (refl, refl) | inr c ↦ rw c (refl, refl) ])
        | inr a ↦ rw a (elim (Bool-cases (tick_frame_after ((current + ring) % 2 ^ 32) frame)) [
          | inr b ↦ rw b (refl, refl)
          | inl b ↦
              rw b
                (elim (Bool-cases ((get_or peer.inputs (frame % ring) no_input).frame == frame)) [
                  | inl c ↦ rw c (refl, refl)
                  | inr c ↦ rw c (refl, refl)
                ])
        ])
      ]

  resolved-received :
      (v : ByteVector) (settings : Settings) (stats : Stats) (current frame : ℕ)
      (input : TickDataBuffer) (peer : PeerState f)
      → 0 < settings.history_size
      → length peer.inputs ≡ settings.history_size
      → (let received = receive_input settings.history_size current frame input stats peer in
          (server_resolve_input v settings received.0 received.1 frame).1.last_input ≡ (
            if is_taken settings.history_size current frame peer
            then input
            else (server_resolve_input v settings stats peer frame).1.last_input))
  resolved-received v settings stats current frame input peer h l =
      let ring = settings.history_size in
      let slot = frame % ring in
      let changed = receive_input_lem ring current frame input stats peer in
      let received = receive_input ring current frame input stats peer in
      rw
        (
          server_resolve_input-last v settings received.0 received.1 frame,
          server_resolve_input-last v settings stats peer frame,
          changed.0,
          changed.1,
        )
        (elim (Bool-cases (is_taken ring current frame peer)) [
          | inr e ↦ rw e refl
          | inl e ↦
              let same : (frame == frame) ≡ true = ground arith in
              rw
                (
                  e,
                  get_or-set-same ring frame (record { frame = frame; input = input }) peer.inputs h
                      l,
                  same,
                )
                refl
        ])

  -- For frames that are counted from the current one, the tests of the code are a bound on the
  -- count, also past the wrap-around.
  is_taken_lem :
      (ring current k : ℕ) (peer : PeerState f)
      → current < 2 ^ 32
      → k < 2 ^ 32
      → ring < 2 ^ 31
      → (current + k) % 2 ^ 32 ≢ tick_frame_none
      → is_taken ring current ((current + k) % 2 ^ 32) peer
        ≡ (ltb k ring && not (has_input ring ((current + k) % 2 ^ 32) peer))
  unfolding is_taken has_input
  is_taken_lem ring current k peer c h r some_frame =
      let frame = (current + k) % 2 ^ 32 in
      let past : tick_frame_after current frame ≡ ltb (2 ^ 31) k = after_current current k c h in
      let near : ltb (2 ^ 31) k ≡ false
          → tick_frame_after ((current + ring) % 2 ^ 32) frame ≡ ltb k ring =
        λ e. after_ring current k ring c (ground arith) r in
      ground (arith, past, near, some_frame)

  -- In a ring with as many slots as the history, from 1 to 2 ^ 31 - 1, take the frame that is any
  -- count below 2 ^ 32 after the current one, wrapping around, unless its index is
  -- `TICK_FRAME_NONE`. An input that comes for it, if the count is below the size of the ring and
  -- the slot of the frame is empty or has another frame, is the client's last input once that
  -- frame is resolved; any other input that comes for it leaves what it resolves to as it was.
  pub server_resolve_input-receive_input :
      (v : ByteVector) (settings : Settings) (stats : Stats) (current k : ℕ)
      (input : TickDataBuffer) (peer : PeerState f)
      → current < 2 ^ 32
      → k < 2 ^ 32
      → 0 < settings.history_size
      → settings.history_size < 2 ^ 31
      → length peer.inputs ≡ settings.history_size
      → (current + k) % 2 ^ 32 ≢ tick_frame_none
      → (let frame = (current + k) % 2 ^ 32 in
          let received = receive_input settings.history_size current frame input stats peer in
          (server_resolve_input v settings received.0 received.1 frame).1.last_input ≡ (
            if ltb k settings.history_size && not (has_input settings.history_size frame peer)
            then input
            else (server_resolve_input v settings stats peer frame).1.last_input))
  server_resolve_input-receive_input v settings stats current k input peer c h z r l some_frame =
      let frame = (current + k) % 2 ^ 32 in
      resolved-received v settings stats current frame input peer z l
      ∙ rw (is_taken_lem settings.history_size current k peer c h r some_frame) refl
