-- ===== src/Staff.antt =====
-- Departments and staff: src/modules/department/department.service.ts and
-- src/modules/user/user.service.ts.
mod Model
mod Departments
mod Users
mod Listing
mod Service
mod Names
mod Placed
mod Records
mod Reassigned
mod Tests
