-- ===== src/Protocol/Flow/Validity.antt =====
-- What `FlowHeader::validate` and `validate_on` accept, said without their tests.
use nowhere.Common.{◌≡◌, ◌≢◌, ◌↔◌, true, ok, arith}
use nowhere.Protocol.Flow.{
  FlowRole, duplex, open_half, attach, Carrier, FlowHeader, validate, validate_on, same_carrier,
  expected_carrier, validate_carriers,
}

-- One lane carries both directions, or two lanes on different carriers carry one each.
abbrev pub CarriersFit : FlowRole → Carrier → Carrier → Type 0
CarriersFit duplex up down = up ≡ down
CarriersFit open_half up down = up ≢ down
CarriersFit attach up down = up ≢ down

-- The direction that a lane of this role carries; a duplex lane carries both.
abbrev pub Carries : FlowRole → Carrier → Carrier → Carrier → Type 0
Carries duplex up down lane = (lane ≡ up) × (lane ≡ down)
Carries open_half up down lane = (lane ≡ up) × (lane ≢ down)
Carries attach up down lane = (lane ≡ down) × (lane ≢ up)

validate_carriers_iff :
    (r : FlowRole) (u d : Carrier) → (validate_carriers r u d ≡ ok tt) ↔ CarriersFit r u d
validate_carriers_iff duplex u d = ground arith
validate_carriers_iff open_half u d = ground arith
validate_carriers_iff attach u d = ground arith

-- A header is valid exactly when its flow id is not zero and its carriers fit its role: equal
-- for a duplex lane, different for either half of a split flow.
pub validate_iff :
    (h : FlowHeader)
    → (validate h ≡ ok tt) ↔ ((h.flow_id ≢ 0) × CarriersFit h.role h.uplink h.downlink)
unfolding validate
validate_iff h = ground (arith, validate_carriers_iff h.role h.uplink h.downlink)

lane_iff :
    (r : FlowRole) (u d lane : Carrier)
    → ((validate_carriers r u d ≡ ok tt) × (same_carrier lane (expected_carrier r u d) ≡ true))
      ↔ Carries r u d lane
lane_iff duplex u d lane = ground arith
lane_iff open_half u d lane = ground arith
lane_iff attach u d lane = ground arith

-- A header is valid on a lane exactly when its flow id is not zero and the lane's carrier is the
-- carrier of what the role carries there: of both directions for a duplex lane, of the uplink
-- and not the downlink for OPEN, of the downlink and not the uplink for ATTACH.
pub validate_on_iff :
    (h : FlowHeader) (lane : Carrier)
    → (validate_on h lane ≡ ok tt) ↔ ((h.flow_id ≢ 0) × Carries h.role h.uplink h.downlink lane)
unfolding validate_on validate
validate_on_iff h lane = ground (arith, lane_iff h.role h.uplink h.downlink lane)
