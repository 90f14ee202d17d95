-- ===== src/Azure.antt =====
-- crates/azure-table: documents in an Azure Table, over its REST service.
pub mod Filter
pub mod Document
