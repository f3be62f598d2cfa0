-- ===== src/Cmd.antt =====
-- cmd: the programs that put the packages together.
mod Tests
mod Fixtures
mod GatewayTests
pub mod Json
pub mod Program
pub mod Mqtt
pub mod Database
pub mod Server
pub mod Store32
pub mod Gateway
pub mod Sensor
pub mod Pipeline
mod SensorTests
mod PipelineTests
mod MainTests
mod MqttTests
