-- ===== src/Font/Text.antt =====
-- `DrawText` stays inside the screen.
use lavoro_l.Screen.{Screen}
use lavoro_l.Font.{Font}
