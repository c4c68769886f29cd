-- ===== src/Examples/Downloads.antt =====
-- A download of a client's file that is complete, while nothing plays.
use music_server_app.Base.{[], ◌∷◌, update}
use music_server_app.PlayList.{PlState}
use music_server_app.ClientDb.{Server, Scheduled, Mp3FileReq, client_request, mp3_downloading}
use music_server_app.ResourceManager.{RManager, RmState}
use music_server_app.ResourceManager.Completed.{Completed}
use music_server_app.Examples.World.{manager, server, play_list_of, one_request}

abbrev in_download : Scheduled
in_download = record {
  client_id = 3;
  client_ip = 77;
  req_token = 5;
  status = PlState.downloading;
  file_name = client_request 3 5;
}

-- Client 3's request is downloaded.
abbrev fetching : Server
fetching = record server {
  cdb = record server.cdb { sch_data = update server.sch_data 0 in_download };
  pl = record (play_list_of (record one_request { pl_status = PlState.downloading } ∷ [])) {
    current_downloading = 3;
  };
}

abbrev fetched : Mp3FileReq
fetched = record {
  request_id = 5;
  clnt_id = 3;
  ipaddress = 77;
  file_name = client_request 3 5;
  file_state = mp3_downloading;
}

abbrev busy : RManager
busy = record manager { rm_state = RmState.downloading; server = fetching }
