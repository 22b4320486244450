-- ===== src/Validation/Laws.antt =====
-- validation/hasAtMostRepeatingOrConsecutiveCharacters.ts: what the guard accepts.
