-- ===== src/Transactions.antt =====
-- frontend/src/features/transactions/hooks/useTransactions.ts: the list of transactions, what is
-- hidden of it, its pages, and the edits of categories.
pub mod Duplicates
pub mod Edits
pub mod Globs
pub mod Pages
mod Tests
