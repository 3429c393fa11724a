-- ===== src/Checks.antt =====
-- Runs of the modelled code on concrete inputs, and the theorems applied to such inputs.
mod Queues
mod OnSlots
mod OnWorker
mod OnParfor
mod OnFork
mod OnQueens
mod OnUnroll
mod OnRecognise
mod OnFrame
mod OnMarked
mod OnScan
mod OnGem
mod OnProgress
mod OnTransplant
mod OnStepLoops
mod OnProbe
