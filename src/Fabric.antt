-- ===== src/Fabric.antt =====
-- Parts of agent/executor_v2.py that keep a state of their own or compute on texts and bytes: the
-- buffer of a file watch, the numbers of the chunks, and the paging through a file.
pub mod Watch
pub mod Sequence
pub mod Paging
pub mod Dispatch
