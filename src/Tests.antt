-- ===== src/Tests.antt =====
-- Concrete runs of the model, and the theorems at concrete inputs.
mod Samples
mod Context
mod Coordinator
mod Inbox
mod Loop
mod SampleCodec
mod CodecLaws
mod Files
mod Store
