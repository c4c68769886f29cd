-- ===== src/ResourceManager/Finished.antt =====
-- `servRequest` of MusicServer/src/resourceManager.c for a download that is complete, with the run of
-- the state machine that may start the song: it comes to its end.
use music_server_app.PlayList.Promotion.{Promotion}
use music_server_app.ResourceManager.Completed.{Completed}
