-- ===== src/EventSourcing/UnitOfWork/Outcomes.antt =====
-- `commit` of a unit of work: what its outcome says of what its transaction did.
use tori_py.EventSourcing.UnitOfWork.Frame.{Frame}
