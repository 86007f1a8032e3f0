-- ===== src/Gateway/Payload.antt =====
-- apps/gateway/src/modules/fcm/payload.ts: what an Android push shows and carries, within its budget.
-- A text is its code points. JSON, the count of UTF-8 bytes, the file names of node:path, white space
-- and the decimal form of a number are the platform's. What an event holds beside the fields read or
-- cut here is `identity`, which passes through.
pub mod Texts
pub mod Event
pub mod Display
pub mod Loop
pub mod Passes
pub mod Budget
