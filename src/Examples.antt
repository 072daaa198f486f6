-- ===== src/Examples.antt =====
-- Runs of the modelled code at concrete inputs, with the theorems applied to them.
mod UnitGuess
mod IdArray
mod DataCarrier
mod Wire
mod Text
mod Access
mod Rating
mod Entry
mod UpdateLoop
mod Service
mod Session
mod Startup
mod CommandLine
mod CfgLoader
mod Display
mod Dialog
mod ListTable
mod Connect
mod TextUi
