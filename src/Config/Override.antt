-- ===== src/Config/Override.antt =====
-- The derived defaults are computed by `Load`, before the command line is read: a flag that changes
-- what they were derived from leaves them as they are.
