-- ===== src/Common.antt =====
-- common/models.h and models.cpp: the data that the modules share.
pub mod Item
pub mod Status
