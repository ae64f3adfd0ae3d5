-- ===== src/Protocol/Datagram/Split.antt =====
-- src/protocol/datagram.rs: what `encode_udp_fragments` plans, and the pieces that it cuts a packet
-- into.
use nowhere.Common.{
  ℕ, zero, suc, ◌+◌, ◌-◌, ◌*◌, ◌≡◌, ◌≤◌, ◌<◌, ◌≢◌, min, sym, ap, ◌∙◌, List, [], ◌++◌, ok, arith,
  length, take, drop, length-take, length-drop, take-min, take-append-drop, drop-drop, drop_all,
}
use nowhere.Protocol.Datagram.{UdpFragments, encode_udp_fragments, chunk, div_ceil}

-- A plan that `encode_udp_fragments` made: the pieces are not empty and cover the packet.
pub record IsPlan (f : UdpFragments) : Type 0 where
  pub flow : f.flow_id ≢ 0
  pub packet : f.packet_id ≢ 0
  pub total : length f.payload ≤ 65_535
  pub capacity : 1 ≤ f.fragment_payload_max
  pub at_least_two : 2 ≤ f.fragment_count
  pub at_most : f.fragment_count ≤ 255
  pub needed : (f.fragment_count - 1) * f.fragment_payload_max < length f.payload
  pub enough : length f.payload ≤ f.fragment_count * f.fragment_payload_max

div_ceil_bounds : (n c : ℕ) → 1 ≤ c → 1 ≤ n → ((div_ceil n c - 1) * c < n) × (n ≤ div_ceil n c * c)
div_ceil_bounds n c h k = grind arith

pub encode_udp_fragments-IsPlan :
    (flow_id packet_id : ℕ) (payload : List ℕ) (max_datagram_size : ℕ) (f : UdpFragments)
    → encode_udp_fragments flow_id packet_id payload max_datagram_size ≡ ok f
    → IsPlan f
      × (f.flow_id ≡ flow_id)
      × (f.packet_id ≡ packet_id)
      × (f.payload ≡ payload)
      × (f.next ≡ 0)
      × (f.fragment_payload_max + 13 ≡ max_datagram_size)
unfolding encode_udp_fragments
encode_udp_fragments-IsPlan flow_id packet_id payload max_datagram_size f e =
    ground (arith, div_ceil_bounds (length payload) (max_datagram_size - 13))

-- The length of a piece, over the numbers alone.
mul_ge : (m c : ℕ) → 1 ≤ c → m ≤ m * c
mul_ge m c h = grind arith

mul_split : (m c : ℕ) → 1 ≤ c → 1 ≤ m → c + m ≤ m * c + 1
mul_split (suc m) (suc c) h k = omega (arith, mul_ge m (suc c) (omega arith))
mul_split zero c h k = absurd (omega arith)
mul_split (suc m) zero h k = absurd (omega arith)

mul_mono : (i m c : ℕ) → i ≤ m → i * c ≤ m * c
mul_mono i m c h = grind arith

piece_bounds :
    (i n c t : ℕ)
    → 1 ≤ c
    → 2 ≤ n
    → i < n
    → (n - 1) * c < t
    → (1 ≤ min c (t - i * c)) × (min c (t - i * c) ≤ c) × (min c (t - i * c) + n ≤ t + 1)
piece_bounds i n c t hc hn hi ht =
    omega (arith, mul_mono i (n - 1) c (omega arith), mul_split (n - 1) c hc (omega arith))

-- The pieces from one index on, put together.
unfoldable pub join_chunks : UdpFragments → ℕ → ℕ → List ℕ
join_chunks f zero i = []
join_chunks f (suc n) i = chunk f i ++ join_chunks f n (i + 1)

module _ {f : UdpFragments} (plan : IsPlan f) where
  chunk-take :
      (i : ℕ)
      → chunk f i ≡ take f.fragment_payload_max (drop (i * f.fragment_payload_max) f.payload)
  unfolding chunk
  chunk-take i =
      let s = i * f.fragment_payload_max in
      ap (λ (k : ℕ). take k (drop s f.payload))
        {y = min f.fragment_payload_max (length (drop s f.payload))}
        (omega (arith, length-drop s f.payload))
      ∙ take-min f.fragment_payload_max (drop s f.payload)

  rest_done : (i : ℕ) → i ≡ f.fragment_count → length f.payload ≤ i * f.fragment_payload_max
  rest_done i h = rw h plan.enough

  next_drop :
      (i : ℕ)
      → drop ((i + 1) * f.fragment_payload_max) f.payload
        ≡ drop f.fragment_payload_max (drop (i * f.fragment_payload_max) f.payload)
  next_drop i =
      ap (λ k. drop k f.payload) (omega arith)
      ∙ sym (drop-drop f.fragment_payload_max (i * f.fragment_payload_max) f.payload)

  pub chunk-length :
      (i : ℕ)
      → i < f.fragment_count
      → (1 ≤ length (chunk f i))
        × (length (chunk f i) ≤ f.fragment_payload_max)
        × (length (chunk f i) + f.fragment_count ≤ length f.payload + 1)
  chunk-length i h =
      let s = i * f.fragment_payload_max in
      omega (
        arith,
        ap length (chunk-take i),
        length-take f.fragment_payload_max (drop s f.payload),
        length-drop s f.payload,
        piece_bounds i f.fragment_count f.fragment_payload_max (length f.payload) plan.capacity
            plan.at_least_two h plan.needed,
      )

  pub join_chunks-drop :
      (n i : ℕ)
      → i + n ≡ f.fragment_count
      → join_chunks f n i ≡ drop (i * f.fragment_payload_max) f.payload
  unfolding join_chunks
  join_chunks-drop zero i h =
      sym (drop_all (i * f.fragment_payload_max) f.payload (rest_done i (omega arith)))
  join_chunks-drop (suc n) i h =
      ap (λ xs. xs ++ join_chunks f n (i + 1)) (chunk-take i)
      ∙ ap (◌++◌ (take f.fragment_payload_max (drop (i * f.fragment_payload_max) f.payload)))
          (join_chunks-drop n (i + 1) (omega arith) ∙ next_drop i)
      ∙ take-append-drop f.fragment_payload_max (drop (i * f.fragment_payload_max) f.payload)
