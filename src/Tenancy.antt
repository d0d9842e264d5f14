-- ===== src/Tenancy.antt =====
-- Access to the database: every query goes through two extensions of the client
-- (src/prisma/prisma.service.ts), first the filter of soft deletes (src/prisma/soft-delete.ts), then
-- the guard that wants a tenant (src/prisma/tenant-guard.ts).
pub mod Guard
pub mod SoftDelete
pub mod Scope
pub mod Client
pub mod Names
pub mod Confined
pub mod Deleted
mod Engine
mod Tests
