-- ===== src/Recognition.antt =====
-- Recognitions: src/modules/recognition/recognition.service.ts
mod Model
mod Service
mod Sorted
mod Pages
mod Rules
mod Tests
