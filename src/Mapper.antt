-- ===== src/Mapper.antt =====
-- The mappers and filters of mapper/: from raw messages to deltas, and from deltas to deltas.
pub mod Process
pub mod Expressions
pub mod RateLimit
pub mod Registers
pub mod Modbus
pub mod ModbusDeltas
pub mod ModbusValues
pub mod ModbusSafety
pub mod ExpressionFilter
pub mod ExpressionFilterLaws
pub mod CanFrame
pub mod CanSignal
pub mod CanBus
pub mod CanBits
pub mod CanFrameLaws
pub mod CanMappings
pub mod CanBusLaws
pub mod Samples
mod CanTests
pub mod Aggregate
pub mod Tank
pub mod TankLaws
pub mod TankTables
pub mod CsvFields
pub mod Csv
pub mod CsvLaws
pub mod CsvSplit
pub mod Json
pub mod JsonLaws
pub mod NmeaSentence
pub mod Nmea0183
pub mod Nmea0183Laws
pub mod AggregateLaws
mod JsonTests
mod NmeaTests
mod CsvTests
mod TankTests
mod Tests
