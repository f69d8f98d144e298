-- ===== src/Intrusive.antt =====
-- intrusive/structures: containers that link nodes which their clients own.
pub mod Memory
pub mod Queue
pub mod Stack
pub mod BidirectionalList
