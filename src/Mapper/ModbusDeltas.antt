-- ===== src/Mapper/ModbusDeltas.antt =====
-- The overflow correction of mapper/modbus.go on a counter that wraps at 65536.
use gosk.Prelude.{ℕ, ◌+◌, ◌%◌, ◌<◌, ◌≡◌, if◌then◌else◌, ltb, arith}
use gosk.Prelude.Int.{pos, ◌+ℤ◌, ◌-ℤ◌}
use gosk.Mapper.Registers.{register_delta}

-- For a counter that went up by less than 15536, the delta is the step, and one less than the step
-- if the counter wrapped.
pub register_delta-wrapped :
    (previous step : ℕ)
    → previous < 65536
    → step < 15536
    → register_delta ((previous + step) % 65536) previous
      ≡ (if ltb (previous + step) 65536 then pos step else pos step -ℤ pos 1)
unfolding register_delta ◌+ℤ◌ ◌-ℤ◌
register_delta-wrapped previous step hp hs = ground arith
