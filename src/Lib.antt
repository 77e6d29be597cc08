-- ===== src/Lib.antt =====
-- A server of H.264 streams over RTSP and RTP, as a library of definitions that follow the source and
-- of theorems about them.
--
-- The parts of the program. The server (src/media/rtsp_server.cc) keeps the sessions in two maps, by
-- identifier and by suffix, and hands the frames of the program to a session. A session
-- (src/media/media_session.cc) has media sources and clients. The source of H.264 frames
-- (src/media/h264_source.cc) cuts a frame into packets and hands each to a callback, which the
-- session sets: it gives a copy of the packet to each client's RTP connection
-- (src/media/rtp_connection.cc). That queues a task, which writes the headers and sends the packet over
-- the RTSP connection's TCP connection or over UDP. An RTSP connection
-- (src/media/rtsp_connection.cc) parses the messages of a client (src/media/rtsp_message.cc), finds the
-- session in the server, makes the RTP connection and sets it up, and builds the answers.
--
-- Which file models what:
--   Media: the types of src/media/media.h and src/media/rtp.h.
--   RingBuffer: src/media/ring_buffer.h; RingBuffer/Refines is the queue that it stands for.
--   H264Source: H264Source::handleFrame. Its children have the packets as a list (Packets), the
--     callback on them (Streams), a receiver by RFC 3984 (Receiver) and what it gets of them
--     (Reassemble), and sizes and markers (Labels).
--   RtpConnection: the state, play, record and teardown. RtpConnection/Setup is setupRtpOverTcp and
--     setupRtpOverUdp, RtpConnection/Send is sendRtpPacket with setRtpHeader, sendRtpOverTcp and
--     sendRtpOverUdp, RtpConnection/Info is getRtpInfo, and RtpConnection/Lifecycle has the step
--     relation of all that changes the state.
--   MediaSession: the class, with the callback of addMediaSource as `broadcast`; MediaSession/Sdp is
--     getSdpMessage, MediaSession/Described its text. Shares and Streaming follow a frame from the
--     session to one of its clients.
--   RtspServer: the class; RtspServer/Sessions is the step relation of a server with its sessions. It
--     has all that the class offers; the states that are reached are those of orderly steps, which give
--     out no identifier twice (that is, below 2 ^ 32 sessions) and do not rename a registered session,
--     which the program nowhere does.
--   RtspRequest: the state and the getters of the class in src/media/rtsp_message.cc.
--     RtspRequest/Parse is parseRequest, with parseRequestLine in Line and parseHeadersLine in
--     Headers; its other children have the laws of the buffer (Buffering), what a client prints (Asks),
--     and what is read of it (RoundTrip and Lines for the request line, Fields and Transports for the
--     headers, Requests for the whole). RtspRequest/Answers has the functions that build an answer.
--   RtspResponse: that class of src/media/rtsp_message.cc; Requests and Unread are about what RtspRequest
--     reads of the requests that it builds. Rtsp: src/media/rtsp.h.
--   RtspConnection: src/media/rtsp_connection.cc, with the handlers of the methods in Handlers and
--     handleRtspMessage with what it calls in Messages; Answered and Served are about the answers,
--     Lifecycle is the step relation, ServerSteps is what the handlers do to the server, and Serving and
--     Conversations are about whole requests, one after the other, Rtcp about packets between them.
--   H264File: the class in src/h264_file.cc. Its children show that the loops of readFrame end inside of
--     the buffer (Frames), what the bytes of a start code and of what is behind it say (Shapes), that
--     the tests of the loops say the same (Meaning), that the loops stop at the first place that they
--     look for (Search), what it hands out (Reading), the start again at the end (Rewinding), and that a
--     file is read over and over (Playing).
--   RtspH264file: the program in src/rtsp_h264file.cc; Sending and Passes are about the frames that its
--     thread pushes, SetUp about what main does to the server, and Starting about main as a whole.
--   Address: src/media/address.h; Chosen is the address that it finds.
--   Base: lists, memory, bits, integers and maps. Tests: runs on small inputs.
--
-- How it corresponds. A class is a record with the fields of the source, and a method is a function
-- to the new record. A member function that changes nothing else keeps its name, in small letters. A
-- mutex makes an operation one step. What a call from outside answers (the clock, the random device,
-- system calls, the locking of weak pointers) is an argument. Memory is a list of bytes; an access
-- outside of it, a call through a null pointer or a failed assertion is `none`. Numbers of w bits are
-- reduced modulo 2 ^ w where the source stores them. Texts are lists of bytes; a conversion of `sscanf`
-- is a function that takes off what it reads, and a word that does not fit into its array is `none`. The
-- buffer of a connection is muduo's and a parameter: the record `Buffer` of its operations.
--
-- Bounds and fuel. The loop of handleFrame runs on the size of the frame as fuel, and each round
-- takes 1418 bytes off it; the loop of setupRtpOverUdp has the 10 rounds that the source gives it. A
-- frame is shorter than 2 ^ 32 - 1 bytes, since the loop adds 2 to what is left on 32 bits.
--
-- A loop of readFrame has one round more than the buffer has bytes, and looks at a byte further on in
-- each.
--
-- A number is printed in as many rounds as it is large, and each takes a digit off.
--
-- The thread of the program has one round for each time in a list; a round hands out at least four
-- bytes, so a round for every four bytes, and one more, gets to the end of a file that is never closed.
--
-- Not modelled: the copy of muduo under 3rdparty, of which the calls are parameters; logging, and what
-- the program prints.
pub mod Base
pub mod Address
pub mod RingBuffer
pub mod Media
pub mod H264Source
pub mod RtpConnection
pub mod MediaSession
pub mod RtspServer
pub mod RtspRequest
pub mod H264File
pub mod RtspH264file
pub mod RtspResponse
pub mod Rtsp
pub mod RtspConnection
pub mod Tests
