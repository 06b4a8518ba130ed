-- ===== src/PageStack.antt =====
-- BalletMini/urlstack.c: the stack of pages behind the buttons "back" and "forward", and what the user
-- typed into the forms of the current page. An index outside the array is a fault.
pub mod Clock
pub mod State
pub mod Forms
pub mod Navigation
pub mod Examples
