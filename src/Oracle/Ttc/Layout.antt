-- ===== src/Oracle/Ttc/Layout.antt =====
-- The layout of a CONNECT packet, by the offsets that its own fields name.
use credential_gateway.Common.{ℕ, ◌+◌, ◌^◌, ◌<◌, ◌≡◌, refl, Bytes, length, take, drop, arith}
use credential_gateway.Common.Words.{of_be}
use credential_gateway.Oracle.Tns.Laws.{frame}
use credential_gateway.Oracle.Ttc.{descriptor, build_connect}

-- The 16-bit field at an offset.
abbrev pub field16 : ℕ → Bytes → ℕ
field16 i packet = of_be (take 2 (drop i packet))

-- A CONNECT packet that fits its length field says its own length at offset 0, and at 24 and 26
-- how long the descriptor is and where in the packet it starts; there it stands, up to the end.
pub connect_layout :
    (to_upper : Bytes → Bytes) (service : Bytes)
    → length (descriptor to_upper service) + 70 < 2 ^ 16
    → (field16 0 (frame 1 (build_connect to_upper service))
        ≡ length (frame 1 (build_connect to_upper service)))
      × (field16 24 (frame 1 (build_connect to_upper service))
          ≡ length (descriptor to_upper service))
      × (drop
            (field16 26 (frame 1 (build_connect to_upper service)))
            (frame 1 (build_connect to_upper service))
          ≡ descriptor to_upper service)
unfolding build_connect
connect_layout to_upper service h = (omega arith, omega arith, refl)
