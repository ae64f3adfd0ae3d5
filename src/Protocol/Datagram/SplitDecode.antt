-- ===== src/Protocol/Datagram/SplitDecode.antt =====
-- src/protocol/datagram.rs: the fragments of a packet, as the receiver decodes them.
use nowhere.Common.{
  ℕ, zero, suc, ◌+◌, ◌^◌, ◌≡◌, ◌≤◌, ◌<◌, refl, ap, ◌∙◌, subst, List, [], ◌∷◌, ◌++◌, All, none, some,
  Result, ok, ◌>>=◌, arith, drop, length,
}
use nowhere.Common.Bytes.{u16_bytes, u32_bytes}
use nowhere.Protocol.Error.{Error}
use nowhere.Protocol.Datagram.{
  UdpFragments, UdpFragment, UdpFrame, fragment_frame, encode_udp_fragments,
  encode_udp_fragment_header, chunk, next_fragment, collect, remaining, decode_udp_frame,
}
use nowhere.Protocol.Datagram.Frames.{encode_frame, encoded-decode_udp_frame}
use nowhere.Protocol.Datagram.Split.{
  IsPlan, encode_udp_fragments-IsPlan, chunk-length, join_chunks, join_chunks-drop,
}

-- The fragment of a plan at an index.
abbrev pub fragment_at : UdpFragments → ℕ → UdpFragment
fragment_at f i = record {
  packet_id = f.packet_id;
  fragment_index = i;
  fragment_count = f.fragment_count;
  total_len = length f.payload;
  payload = chunk f i;
}

-- The fragments of a plan from one index on.
abbrev pub fragments_from : UdpFragments → ℕ → ℕ → List UdpFragment
fragments_from f zero i = []
fragments_from f (suc n) i = fragment_at f i ∷ fragments_from f n (i + 1)

abbrev pub decode_all : List (List ℕ) → Result Error (List UdpFrame)
decode_all [] = ok []
decode_all (input ∷ inputs) =
    decode_udp_frame input >>= λ frame. decode_all inputs >>= λ frames. ok (frame ∷ frames)

abbrev pub of_flow : ℕ → List UdpFragment → List UdpFrame
of_flow flow_id [] = []
of_flow flow_id (f ∷ fs) = fragment_frame flow_id f ∷ of_flow flow_id fs

abbrev pub header_at : UdpFragments → ℕ → List ℕ
header_at f i =
    1
    ∷ (u32_bytes f.flow_id
        ++ (u32_bytes f.packet_id ++ (i ∷ f.fragment_count ∷ u16_bytes (length f.payload))))

-- The frames of a plan from one index on.
abbrev pub frames_from : UdpFragments → ℕ → ℕ → List (List ℕ)
frames_from f zero i = []
frames_from f (suc n) i = (header_at f i ++ chunk f i) ∷ frames_from f n (i + 1)

abbrev pub payloads : List UdpFragment → List ℕ
payloads [] = []
payloads (f ∷ fs) = f.payload ++ payloads fs

payloads-join_chunks :
    (f : UdpFragments) (n i : ℕ) → payloads (fragments_from f n i) ≡ join_chunks f n i
unfolding join_chunks
payloads-join_chunks f zero i = refl
payloads-join_chunks f (suc n) i = ap (◌++◌ (chunk f i)) (payloads-join_chunks f n (i + 1))

module _ {f : UdpFragments} (plan : IsPlan f) where
  header_valid :
      (i : ℕ)
      → i < f.fragment_count
      → encode_udp_fragment_header f.flow_id f.packet_id i f.fragment_count (length f.payload)
        ≡ ok (header_at f i)
  unfolding encode_udp_fragment_header
  header_valid i h = ground (arith, chunk-length plan i h)

  next_fragment_at :
      (i : ℕ)
      → i < f.fragment_count
      → next_fragment (record f { next = i })
        ≡ ok (some (header_at f i ++ chunk f i, record f { next = i + 1 }))
  unfolding next_fragment chunk
  next_fragment_at i h = ground (arith, header_valid i h)

  next_fragment_end :
      (i : ℕ) → f.fragment_count ≤ i → next_fragment (record f { next = i }) ≡ ok none
  unfolding next_fragment
  next_fragment_end i h = ground arith

  collect-frames_from :
      (rounds n i : ℕ)
      → i + n ≡ f.fragment_count
      → n ≤ rounds
      → collect rounds (record f { next = i }) ≡ ok (frames_from f n i)
  unfolding collect
  collect-frames_from zero zero i h k = refl
  collect-frames_from zero (suc n) i h k = absurd (omega arith)
  collect-frames_from (suc rounds) zero i h k = rw (next_fragment_end i (omega arith))
  collect-frames_from (suc rounds) (suc n) i h k = rw (
    next_fragment_at i (omega arith),
    collect-frames_from rounds n (i + 1) (omega arith) (omega arith),
  )

  frame_encoded :
      (i : ℕ)
      → i < f.fragment_count
      → encode_frame (fragment_frame f.flow_id (fragment_at f i)) ≡ ok (header_at f i ++ chunk f i)
  unfolding encode_frame
  frame_encoded i h = rw (header_valid i h)

  module _ (flow : f.flow_id < 2 ^ 32) (packet : f.packet_id < 2 ^ 32) where
    frame_decoded :
        (i : ℕ)
        → i < f.fragment_count
        → decode_udp_frame (header_at f i ++ chunk f i)
          ≡ ok (fragment_frame f.flow_id (fragment_at f i))
    frame_decoded i h =
        let (some_bytes, within, rest) = chunk-length plan i h in
        encoded-decode_udp_frame (fragment_frame f.flow_id (fragment_at f i)) _
          (
            flow,
            packet,
            omega (arith, plan.at_most),
            omega (arith, plan.at_most),
            omega (arith, plan.total),
          )
          (some_bytes, rest) (frame_encoded i h)

    decode_all-frames_from :
        (n i : ℕ)
        → i + n ≡ f.fragment_count
        → decode_all (frames_from f n i) ≡ ok (of_flow f.flow_id (fragments_from f n i))
    decode_all-frames_from zero i h = refl
    decode_all-frames_from (suc n) i h =
        rw (frame_decoded i (omega arith), decode_all-frames_from n (i + 1) (omega arith))

  frame_sizes :
      (n i : ℕ)
      → i + n ≡ f.fragment_count
      → All (λ frame. length frame ≤ f.fragment_payload_max + 13) (frames_from f n i)
  frame_sizes zero i h = tt
  frame_sizes (suc n) i h =
      let (some_bytes, within, rest) = chunk-length plan i (omega arith) in
      (omega arith, frame_sizes n (i + 1) (omega arith))

-- The frames that a packet is split into never fail to be made, whether `collect` asks as often
-- as `size_hint` says or more often, there is one for each fragment
-- of the plan, none is larger than the DATAGRAM limit, and they decode to the plan's fragments
-- in order, whose payloads put together are the packet.
pub encode_udp_fragments_split :
    (flow_id packet_id : ℕ) (payload : List ℕ) (max_datagram_size : ℕ) (f : UdpFragments)
    → flow_id < 2 ^ 32
    → packet_id < 2 ^ 32
    → encode_udp_fragments flow_id packet_id payload max_datagram_size ≡ ok f
    → (frames : List (List ℕ)) × ((rounds : ℕ)
        → remaining f ≤ rounds
        → collect rounds f ≡ ok frames)
      × All (λ frame. length frame ≤ max_datagram_size) frames
      × (decode_all frames ≡ ok (of_flow flow_id (fragments_from f f.fragment_count 0)))
      × (payloads (fragments_from f f.fragment_count 0) ≡ payload)
unfolding remaining
encode_udp_fragments_split flow_id packet_id payload max_datagram_size f w p e =
    let (plan, ef, ep, el, en, em) =
      encode_udp_fragments-IsPlan flow_id packet_id payload max_datagram_size f e in
    let n = f.fragment_count in
    (
      frames_from f n 0,
      λ rounds h.
          ap (λ k. collect rounds (record f { next = k })) en
          ∙ collect-frames_from plan rounds n 0 (omega arith) (omega arith),
      subst (λ m. All (λ frame. length frame ≤ m) (frames_from f n 0)) em
          (frame_sizes plan n 0 (omega arith)),
      decode_all-frames_from plan (rw ef w) (rw ep p) n 0 (omega arith)
          ∙ ap (λ id. ok (of_flow id (fragments_from f n 0))) ef,
      payloads-join_chunks f n 0
          ∙ join_chunks-drop plan n 0 (omega arith)
          ∙ ap (λ (k : ℕ). drop k f.payload) {y = zero} (omega arith)
          ∙ el,
    )
