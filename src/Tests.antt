-- ===== src/Tests.antt =====
-- Runs of the modelled code at concrete inputs, and instances of the theorems that have hypotheses.
mod Ascii
mod DerRuns
mod MechanismRuns
mod BrokerRuns
mod FilterRuns
mod PinRuns
mod SecretRuns
mod Parts
mod ObjectsRuns
mod CryptokiRuns
mod SessionRuns
mod DeviceRuns
