-- ===== src/Oms.antt =====
-- BalletMini/parse_oms.c and additems.c: the streaming parser of an OMS page and the items that it
-- puts into the view.
pub mod State
pub mod Items
pub mod Pictures
pub mod Forms
pub mod Header
pub mod Tags
pub mod TagData
pub mod Stages
pub mod Loop
pub mod Shape
pub mod Safety
pub mod RoundTrip
pub mod Examples
